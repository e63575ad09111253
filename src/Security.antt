-- ===== src/Security.antt =====
-- internal/security: encryption between peers.
pub mod MessageEncryption
pub mod PeerEncryption
