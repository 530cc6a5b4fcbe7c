-- ===== src/Tests.antt =====
-- Concrete runs: each theorem of the results that has hypotheses or arguments, applied at one input.
pub mod Webhook
pub mod Certificates
pub mod Renewal
pub mod Manager
pub mod Paths
pub mod Snapshots
pub mod Histories
pub mod Runtime
pub mod Nested
pub mod Supports
pub mod Copies
pub mod Files
pub mod Commands
pub mod Requests
pub mod Layers
