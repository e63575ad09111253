-- ===== src/Tss.antt =====
-- The threshold-signature service, internal/tss.
pub mod Types
pub mod Env
pub mod Service
pub mod Store
pub mod Broadcast
pub mod Keygen
pub mod Signature
pub mod Sign
pub mod Resharing
pub mod Watch
pub mod Handle
pub mod Requests
pub mod Tasks
pub mod Lifecycle
