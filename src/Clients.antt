-- ===== src/Clients.antt =====
-- The clients of the API, cmd/dknet-cli and cmd/dknet-mcp.
pub mod Cli
pub mod Mcp
