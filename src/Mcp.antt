-- ===== src/Mcp.antt =====
-- shared/mcp: what an agent may ask of the MCP server.
pub mod Types
pub mod Params
pub mod Governance
pub mod Tokens
pub mod Registry
pub mod Server
pub mod Calls
mod Tests
