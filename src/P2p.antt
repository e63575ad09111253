-- ===== src/P2p.antt =====
-- The peer-to-peer layer, internal/p2p.
pub mod Types
pub mod Network
pub mod Streams
pub mod Discovery
pub mod Host
