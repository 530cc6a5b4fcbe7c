-- ===== src/Rootfs/Os.antt =====
-- The calls of the operating system that the code makes, over a state `W` of the file system.
use sysbox.Prelude.{ℕ, Bool}
use sysbox.Action.{Action}
use sysbox.Go.Strings.{Text}

-- Of what `os.Lstat` gives: no value is both a directory and a symbolic link.
pub data FileKind : Type 0 where
  directory symlink other_file : FileKind

pub record Os (W : Type 0) : Type 0 where
  pub lstat : Text → Action W FileKind
  pub mkdir_all : Text → ℕ → Action W (Unit {0})
  pub chmod : Text → ℕ → Action W (Unit {0})
  pub create_temp : Text → Text → Action W Text
  pub write : Text → Text → Action W (Unit {0})
  pub close : Text → Action W (Unit {0})
  pub rename : Text → Text → Action W (Unit {0})
  pub remove : Text → Action W (Unit {0})
  pub read : Text → Action W Text

abbrev pub is_symlink : FileKind → Bool
is_symlink directory = Bool.false
is_symlink symlink = Bool.true
is_symlink other_file = Bool.false

abbrev pub is_dir : FileKind → Bool
is_dir directory = Bool.true
is_dir symlink = Bool.false
is_dir other_file = Bool.false
