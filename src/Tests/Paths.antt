-- ===== src/Tests/Paths.antt =====
-- Paths of layers and of volumes.
use sysbox.Prelude.{ℕ, none, [], ◌∷◌}
use sysbox.Rootfs.Os.{Os, directory}
use sysbox.Rootfs.Types.{PrepareRootfsRequest, PreparedRootfs}
use sysbox.Rootfs.Preparer.{prepare_rootfs_rw_layer}
use sysbox.Rootfs.Preparer.Inside.{prepare_rootfs_rw_layer-IsBelow}
use sysbox.Prelude.{◌≡◌, refl, true, false, any, ◌++◌, ok}
use sysbox.Go.Strings.{Text, codes}
use sysbox.Go.Filepath.{is_abs, elements}
use sysbox.Go.Filepath.Normal.{is_up}
use sysbox.Rootfs.Path.{safe_join}
use sysbox.Rootfs.Path.Safety.{safe_join-IsBelow}
use sysbox.Rootfs.Pvc.{unescape_mount_info_path}
use sysbox.Rootfs.Pvc.Escape.{escape_mount_info_path, unescape-escape}

joined_path : safe_join (ok (codes "/w")) (codes "/data") (codes "a/./b") ≡ ok (codes "/data/a/b")
unfolding safe_join sysbox.Rootfs.Path.safe_layer_path sysbox.Go.Strings.text_eq is_abs
    sysbox.Go.Filepath.clean sysbox.Go.Strings.Split.split sysbox.Go.Strings.Split.join
    sysbox.Go.Strings.contains sysbox.Go.Filepath.abs
joined_path = refl

root_is_abs : is_abs (codes "/data") ≡ true
unfolding is_abs
root_is_abs = refl

safe_join-IsBelow_example :
    (is_abs (codes "/data/a/b") ≡ true)
    × (elements (codes "/data/a/b") ≡ elements (codes "/data") ++ elements (codes "a/./b"))
    × (any is_up (elements (codes "a/./b")) ≡ false)
safe_join-IsBelow_example =
    safe_join-IsBelow (ok (codes "/w")) (codes "/data") (codes "a/./b") (codes "/data/a/b")
      root_is_abs joined_path

unescape-escape_example :
    unescape_mount_info_path (escape_mount_info_path (codes "/my dir")) ≡ codes "/my dir"
unescape-escape_example = unescape-escape (codes "/my dir")

-- A file system in which everything is a directory.
abbrev os : Os ℕ
os = record {
  lstat = λ p w. (ok directory, w);
  mkdir_all = λ p m w. (ok tt, w);
  chmod = λ p m w. (ok tt, w);
  create_temp = λ d p w. (ok p, w);
  write = λ p t w. (ok tt, w);
  close = λ p w. (ok tt, w);
  rename = λ p q w. (ok tt, w);
  remove = λ p w. (ok tt, w);
  read = λ p w. (ok [], w);
}

abbrev request : PrepareRootfsRequest
request = record {
  snapshot_key = codes "k";
  pod_uid = codes "u";
  container_name = codes "app";
  path = codes "a/./b";
  pvc_mount_path = codes "/data";
}

abbrev prepared : PreparedRootfs
prepared = record { upper_dir = codes "/data/a/b/upper"; work_dir = codes "/data/a/b/work" }

layer_prepared : (prepare_rootfs_rw_layer os none (ok (codes "/w")) request 0).0 ≡ ok prepared
unfolding prepare_rootfs_rw_layer sysbox.Prelude.check_context safe_join
    sysbox.Rootfs.Path.safe_layer_path sysbox.Go.Strings.text_eq is_abs sysbox.Go.Filepath.clean
    sysbox.Go.Strings.Split.split sysbox.Go.Strings.Split.join sysbox.Go.Strings.contains
    sysbox.Go.Filepath.abs sysbox.Go.Filepath.rel
layer_prepared = refl

prepare_rootfs_rw_layer-IsBelow_example :
    (elements (codes "/data/a/b/upper")
      ≡ (elements (codes "/data") ++ elements (codes "a/./b")) ++ codes "upper" ∷ [])
    × (elements (codes "/data/a/b/work")
        ≡ (elements (codes "/data") ++ elements (codes "a/./b")) ++ codes "work" ∷ [])
    × (any is_up (elements (codes "a/./b")) ≡ false)
prepare_rootfs_rw_layer-IsBelow_example =
    prepare_rootfs_rw_layer-IsBelow os none (ok (codes "/w")) request 0 root_is_abs layer_prepared
