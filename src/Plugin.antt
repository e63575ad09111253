-- ===== src/Plugin.antt =====
-- internal/plugin: the encryption of keys at rest, and the validation service.
pub mod Encryption
pub mod Validation
