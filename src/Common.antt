-- ===== src/Common.antt =====
-- internal/common: helpers that the other packages share.
pub mod Util
pub mod Password
pub mod Gzip
pub mod Logger
