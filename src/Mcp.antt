-- ===== src/Mcp.antt =====
-- source/features/mcp/mcp_server.c: the JSON-RPC endpoint, a module for each of its parts.
pub mod Reply
pub mod Tools
pub mod Upload
pub mod Server
