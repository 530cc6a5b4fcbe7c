-- ===== src/Tests/Runtime.antt =====
-- The sidecar's specification, which comes with the second listing, and a special directory.
use sysbox.Prelude.{Bool, true, false, ◌≢◌, arith}
use sysbox.Lite.Dirs.{dir_empty, names_empty}
use sysbox.Prelude.{any, All}
use sysbox.Go.Filepath.{is_abs}
use sysbox.Go.Strings.{text_eq}
use sysbox.Lite.Volumes.{LiteSpec, init_lite_volumes_at}
use sysbox.Lite.Volumes.Untouched.{init_lite_volumes_at-in_use}
use sysbox.Prelude.{
  ℕ, suc, ◌≡◌, refl, none, some, List, [], ◌∷◌, ◌++◌, Result, ok, err, sentinel, io_eof,
}
use sysbox.Go.Strings.{Text, codes}
use sysbox.Rootfs.Os.{directory}
use sysbox.Rootfs.Types.{OciMount, OciSpec, RootfsRwLayerRequest}
use sysbox.Rootfs.SidecarSpec.{Listing, Round, load_attempts}
use sysbox.Rootfs.SidecarSpec.Attempts.{FoundAt, FoundAt-load_attempts, load_attempts-FoundAt}
use sysbox.Lite.Dirs.{LiteOs}
use sysbox.Lite.Special.{LiteHandoff, add_special_paths}
use sysbox.Lite.Special.Placement.{ArePlaced, add_special_paths-ok}

abbrev request : RootfsRwLayerRequest
request = record {
  snapshot_key = codes "k";
  pod_uid = codes "u";
  container_name = codes "app";
  annotation = [];
}

abbrev spec : OciSpec
spec = record { annotations = none; mounts = [] }

abbrev nothing_listed : Listing
nothing_listed filters = ok []

abbrev spec_listed : Listing
spec_listed filters = ok (ok (some spec) ∷ [])

abbrev rounds : List Round
rounds = (nothing_listed, none) ∷ (spec_listed, some (sentinel io_eof)) ∷ []

spec_found : load_attempts 3 rounds request ≡ ok spec
unfolding load_attempts
spec_found = refl

FoundAt-load_attempts_example : FoundAt request spec 3 rounds
FoundAt-load_attempts_example = FoundAt-load_attempts request spec 3 rounds spec_found

load_attempts-FoundAt_example : load_attempts 3 rounds request ≡ ok spec
load_attempts-FoundAt_example =
    load_attempts-FoundAt request spec 3 rounds
      (FoundAt-load_attempts request spec 3 rounds spec_found)

-- Every directory is there and holds something; the state counts the directories that are made.
abbrev os : LiteOs ℕ
os = record {
  lstat = λ p w. (ok directory, w);
  read_dir_names = λ p w. (ok (ok (codes "x" ∷ []) ∷ []), w);
  mkdir_all = λ p m w. (ok tt, suc w);
  chmod = λ p m w. (ok tt, w);
  readlink = λ p w. (ok p, w);
  make_symlink = λ p q w. (ok tt, w);
  open_read = λ p w. (ok [], w);
  create_exclusive = λ p m w. (ok tt, w);
  copy_contents = λ p q w. (ok tt, w);
  close = λ p w. (ok tt, w);
  walk = λ p w. [];
}

abbrev digest : Text → Text
digest t = t

abbrev decode : Text → Result LiteHandoff
decode t = err (sentinel io_eof)

abbrev dests : List Text
dests = codes "/var/lib/docker" ∷ []

abbrev added : List OciMount
added =
    record {
      destination = codes "/var/lib/docker";
      kind = codes "bind";
      source = codes "/v/var/lib/docker";
      options = codes "rbind" ∷ codes "rprivate" ∷ [];
    }
    ∷ []

special_added :
    (add_special_paths os digest decode (some (codes "/r")) (codes "/v") dests [] 0).0 ≡ ok added
unfolding add_special_paths sysbox.Lite.Dirs.dir_empty sysbox.Go.Strings.text_eq
    sysbox.Go.Filepath.join_path sysbox.Go.Strings.Split.join sysbox.Go.Strings.Split.split
    sysbox.Go.Strings.trim_prefix
special_added = refl

are_absolute : (is_abs (codes "/v") ≡ true) × All (λ dest. is_abs dest ≡ true) dests
unfolding is_abs
are_absolute = (refl, (refl, tt))

add_special_paths-ok_example :
    (more : List OciMount) × (added ≡ [] ++ more) × ArePlaced (codes "/v") dests more
add_special_paths-ok_example =
    add_special_paths-ok os digest decode (some (codes "/r")) (codes "/v") dests [] 0 are_absolute.0
      are_absolute.1 special_added

abbrev container_spec : LiteSpec
container_spec = record {
  root_path = some (codes "/r");
  container_name = codes "app";
  sandbox_uid = codes "u";
  rootfs_annotation = [];
  mounts =
      record {
        destination = codes "/data";
        kind = codes "bind";
        source = codes "/pods/u/volumes/kubernetes.io~csi/pvc-1";
        options = [];
      }
      ∷ [];
}

abbrev nothing_exists : Text → ℕ → Bool
nothing_exists p w = false

volumes_in_use : (p : Text) → ◌≢◌ {A = Result Bool} (dir_empty os p 0).0 (ok true)
unfolding dir_empty text_eq names_empty any
volumes_in_use p = ground arith

init_lite_volumes_at-in_use_example :
    (init_lite_volumes_at os nothing_exists (ok (codes "/w")) container_spec (codes "/pods") 0).1
    ≡ 0
init_lite_volumes_at-in_use_example =
    init_lite_volumes_at-in_use os nothing_exists (ok (codes "/w")) container_spec (codes "/pods") 0
      (λ p. refl) (λ p. refl) (λ source p found. volumes_in_use p)
