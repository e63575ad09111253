-- ===== src/Cmd.antt =====
-- The server's command line, cmd/dknet.
pub mod Cluster
pub mod Token
pub mod Show
pub mod Serve
pub mod Docker
pub mod Node
