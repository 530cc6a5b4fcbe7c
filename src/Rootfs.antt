-- ===== src/Rootfs.antt =====
-- The package sysbox-snapshotter/rootfs: where a container's writable layer lies on its volume.
pub mod Path
pub mod Types
pub mod Identity
pub mod SidecarSpec
pub mod Metadata
pub mod Pvc
pub mod Os
pub mod Preparer
pub mod Handoff
