-- ===== src/Lite.antt =====
-- sysbox-runc-lite/lite.go: what the runtime does to a container's specification for its volumes.
pub mod Detect
pub mod Dirs
pub mod Volumes
pub mod Special
