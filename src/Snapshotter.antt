-- ===== src/Snapshotter.antt =====
-- sysbox-snapshotter: the containerd snapshotter over fuse-overlayfs, with the rootfs hooks.
pub mod Mount
pub mod Hooks
pub mod History
pub mod Materialize
pub mod Mounts
pub mod Store
pub mod Create
pub mod Operations
pub mod Support
pub mod Start
