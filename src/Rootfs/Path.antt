-- ===== src/Rootfs/Path.antt =====
-- sysbox-snapshotter/rootfs/path.go: the path of a layer inside its volume.
pub mod Safety
use sysbox.Prelude.{
  Bool, true, false, ◌||◌, List, [], ◌∷◌, if◌then◌else◌, Result, ok, err, sentinel,
  unsafe_layer_path, ◌>>=◌,
}
use sysbox.Go.Strings.{Text, text_eq, blank, contains}
use sysbox.Go.Strings.Split.{split}
use sysbox.Go.Filepath.{slash, dot, dot_dot, is_abs, clean, join_path, abs}

unfoldable pub safe_layer_path : Text → Result Text
safe_layer_path path =
    if blank path || text_eq path dot
    then ok []
    else if is_abs path
    then err (sentinel unsafe_layer_path)
    else let cleaned = clean path in
      if text_eq cleaned dot
      then ok []
      else if contains (split slash cleaned) dot_dot
      then err (sentinel unsafe_layer_path)
      else ok cleaned

-- `cwd` is what `os.Getwd` returns.
unfoldable pub safe_join : Result Text → Text → Text → Result Text
safe_join cwd root path = do
  cleaned ← safe_layer_path path
  abs cwd (join_path (root ∷ cleaned ∷ []))
