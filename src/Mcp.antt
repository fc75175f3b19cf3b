-- ===== src/Mcp.antt =====
-- backend/internal/mcp/server: the MCP server.
pub mod OAuth
pub mod ResourceUri
pub mod Server
pub mod Tools
