-- ===== src/Lite/Dirs.antt =====
-- sysbox-runc-lite/lite.go: the test for an empty directory and the copy of one.
use sysbox.Prelude.{
  ℕ, Bool, true, false, not, List, [], ◌∷◌, if◌then◌else◌, any, Result, ok, err, is_same, io_eof,
}
use sysbox.Go.Strings.{Text, codes, text_eq}
use sysbox.Go.Strings.Split.{join}
use sysbox.Go.Filepath.{slash, join_path, rel}
use sysbox.Action.{Action, pure, fail, ◌>>=◌, ◌>>◌}
use sysbox.Rootfs.Os.{FileKind, directory, symlink, other_file}

is_kept_name : Text → Bool
is_kept_name name = not (text_eq name (codes "lost+found"))

-- The answers of the successive calls of `Readdirnames`; behind the last of them stands the end.
unfoldable pub names_empty : List (Result (List Text)) → Result Bool
unfolding is_kept_name any
names_empty [] = ok true
names_empty (err e ∷ answers) = if is_same e io_eof then ok true else err e
names_empty (ok names ∷ answers) =
    let more = names_empty answers in if any is_kept_name names then ok false else more

-- What `filepath.Walk` visits: the path, with its kind and permissions or an error.
pub record FileInfo : Type 0 where
  pub kind : FileKind
  pub perm : ℕ

abbrev pub Visit : Type 0
Visit = Text × Result FileInfo

pub record LiteOs (W : Type 0) : Type 0 where
  pub lstat : Text → Action W FileKind
  pub read_dir_names : Text → Action W (List (Result (List Text)))
  pub mkdir_all : Text → ℕ → Action W (Unit {0})
  pub chmod : Text → ℕ → Action W (Unit {0})
  pub readlink : Text → Action W Text
  pub make_symlink : Text → Text → Action W (Unit {0})
  pub open_read : Text → Action W Text
  pub create_exclusive : Text → ℕ → Action W (Unit {0})
  pub copy_contents : Text → Text → Action W (Unit {0})
  pub close : Text → Action W (Unit {0})
  pub walk : Text → W → List Visit

module _ {W : Type 0} (os : LiteOs W) where
  unfoldable pub dir_empty : Text → Action W Bool
  unfolding names_empty
  dir_empty path = do answers ← os.read_dir_names path; (λ w. (names_empty answers, w))

  -- `io.Copy`, and then the close whatever it returned: the error of the copy goes first.
  after_copy : Result (Unit {0}) → Result (Unit {0}) → Result (Unit {0})
  after_copy (err e) closed = err e
  after_copy (ok u) closed = closed

  copy_and_close : Text → Text → Action W (Unit {0})
  unfolding after_copy
  copy_and_close path target w =
      let (copied, v) = os.copy_contents path target w in
      let (closed, u) = os.close target v in (after_copy copied closed, u)

  copy_one : Text → Text → FileKind → ℕ → Action W (Unit {0})
  unfolding copy_and_close
  copy_one path target directory perm = do os.mkdir_all target perm; os.chmod target perm
  copy_one path target symlink perm = do link ← os.readlink path; os.make_symlink link target
  copy_one path target other_file perm = do
    os.open_read path
    os.create_exclusive target perm
    copy_and_close path target
    os.chmod target perm

  copy_below : Text → Text → List Text → FileInfo → Action W (Unit {0})
  unfolding copy_one
  copy_below path dst [] info = pure tt
  copy_below path dst (e ∷ es) info =
      copy_one path (join_path (dst ∷ join slash (e ∷ es) ∷ [])) info.kind info.perm

  copy_visits : Text → Text → List Visit → Action W (Unit {0})
  unfolding copy_below
  copy_visits src dst [] = pure tt
  copy_visits src dst ((path, err e) ∷ visits) = fail e
  copy_visits src dst ((path, ok info) ∷ visits) = do
    es ← (λ w. (rel src path, w))
    copy_below path dst es info
    copy_visits src dst visits

  unfoldable pub copy_dir : Text → Text → Action W (Unit {0})
  unfolding copy_visits
  copy_dir src dst w = copy_visits src dst (os.walk src w) w
