-- ===== src/Rootfs/Handoff/Written.antt =====
-- The file of a handoff behind a write that succeeds.
use sysbox.Prelude.{ℕ, ◌≡◌, refl, Option, none, some, [], arith, Result, ok, err, Error}
use sysbox.Go.Strings.{Text, codes}
use sysbox.Rootfs.Os.{Os}
use sysbox.Rootfs.Types.{PersistentSpecialHandoff}
use sysbox.Rootfs.Handoff.{handoff_path, or_close, fill, and_remove, write_handoff}

-- What the files of a file system hold, as far as the code relies on it: `content` is the text of the file
-- at a path.
-- `Apart p q w` is that the paths `p` and `q` lead to different entries and not to links of one file.
pub record FileLaws {W : Type 0} (os : Os W) (content : Text → W → Option Text)
    (Apart : Text → Text → W → Type 0) : Type 0 where
  pub chmod_keeps : (p q : Text) (m : ℕ) (w : W) → content q (os.chmod p m w).1 ≡ content q w
  pub close_keeps : (p q : Text) (w : W) → content q (os.close p w).1 ≡ content q w
  pub makes_empty :
      (dir prefix : Text) (w : W) {p : Text}
      → (os.create_temp dir prefix w).0 ≡ ok p
      → content p (os.create_temp dir prefix w).1 ≡ some []
  pub write_puts :
      (p t : Text) (w : W)
      → content p w ≡ some []
      → (os.write p t w).0 ≡ ok tt
      → content p (os.write p t w).1 ≡ some t
  pub rename_moves :
      (p q : Text) (w : W)
      → (os.rename p q w).0 ≡ ok tt
      → content q (os.rename p q w).1 ≡ content p w
  pub rename_leaves :
      (p q : Text) (w : W)
      → Apart p q w
      → (os.rename p q w).0 ≡ ok tt
      → content p (os.rename p q w).1 ≡ none
  -- To remove what is not there changes nothing.
  pub remove_missing :
      (p q : Text) (w : W) → content p w ≡ none → content q (os.remove p w).1 ≡ content q w
  pub chmod_apart : (p q : Text) (m : ℕ) (w : W) → Apart p q w → Apart p q (os.chmod p m w).1
  pub write_apart : (p q t : Text) (w : W) → Apart p q w → Apart p q (os.write p t w).1
  pub close_apart : (p q : Text) (w : W) → Apart p q w → Apart p q (os.close p w).1

module _ {W : Type 0} (os : Os W) (content : Text → W → Option Text)
    (Apart : Text → Text → W → Type 0) (laws : FileLaws os content Apart) (digest : Text → Text)
    (root : Text) where
  content-fill :
      (tmp contents path : Text) (w : W)
      → content tmp w ≡ some []
      → Apart tmp path w
      → (fill os digest root tmp contents path w).0 ≡ ok tt
      → (content path (fill os digest root tmp contents path w).1 ≡ some contents)
        × (content tmp (fill os digest root tmp contents path w).1 ≡ none)
  unfolding fill or_close
  content-fill tmp contents path w e apart h =
      let w1 = (os.chmod tmp 0o600 w).1 in
      let w2 = (os.write tmp contents w1).1 in
      let w3 = (os.close tmp w2).1 in
      let apart3 : Apart tmp path w3 =
        laws.close_apart tmp path w2
          (laws.write_apart tmp path contents w1 (laws.chmod_apart tmp path 0o600 w apart)) in
      (
        ground (
          arith,
          laws.chmod_keeps tmp tmp 0o600 w,
          laws.write_puts tmp contents w1,
          laws.close_keeps tmp tmp w2,
          laws.rename_moves tmp path w3,
        ),
        ground (arith, laws.rename_leaves tmp path w3 apart3),
      )

  -- A write that succeeds leaves the encoded handoff in the file of its key, where the temporary file is
  -- apart from that one.
  pub content-write_handoff :
      (context_error : Option Error) (marshal : PersistentSpecialHandoff → Result Text)
      (handoff : PersistentSpecialHandoff) (w : W) {contents : Text}
      → ((v : W) (tmp : Text)
          → (os.create_temp root (codes ".handoff-") v).0 ≡ ok tmp
          → Apart tmp
              (handoff_path os digest root handoff.snapshot_key)
              (os.create_temp root (codes ".handoff-") v).1)
      → marshal handoff ≡ ok contents
      → (write_handoff os digest root context_error marshal handoff w).0 ≡ ok tt
      → content
          (handoff_path os digest root handoff.snapshot_key)
          (write_handoff os digest root context_error marshal handoff w).1
        ≡ some contents
  unfolding write_handoff and_remove
  content-write_handoff context_error marshal handoff w {contents} differs encoded h =
      go (os.create_temp root (codes ".handoff-") w2).0 refl
    where
      abbrev_path : Text
      abbrev_path = handoff_path os digest root handoff.snapshot_key

      w2 : W
      w2 = (os.chmod root 0o700 (os.mkdir_all root 0o700 w).1).1

      w3 : W
      w3 = (os.create_temp root (codes ".handoff-") w2).1

      go :
          (made : Result Text)
          → (os.create_temp root (codes ".handoff-") w2).0 ≡ made
          → content abbrev_path (write_handoff os digest root context_error marshal handoff w).1
            ≡ some contents
      go (err e) q = absurd (ground (arith, q, encoded))
      go (ok tmp) q =
          let act = fill os digest root tmp contents abbrev_path w3 in
          ground (
            arith,
            q,
            encoded,
            content-fill tmp contents abbrev_path w3
                (laws.makes_empty root (codes ".handoff-") w2 q) (differs w2 tmp q),
            laws.remove_missing tmp abbrev_path act.1,
          )
