-- ===== src/Admission.antt =====
-- The package sysbox-admission/admission: the webhook that rewrites pods, and its certificates.
pub mod Pod
pub mod Validate
pub mod Sidecar
pub mod Mutate
pub mod Patch
pub mod Server
pub mod Certs
pub mod Health
pub mod Api
pub mod Resources
pub mod Webhook
pub mod Lifecycle
pub mod Leader
pub mod Command
pub mod Reload
pub mod Clone
