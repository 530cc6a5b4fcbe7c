-- ===== src/Go.antt =====
-- What the code uses of Go's standard library: `strings`, `path/filepath` and `encoding/json`, over
-- texts that are lists of bytes.
pub mod Strings
pub mod Filepath
pub mod Json
