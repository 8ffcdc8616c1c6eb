-- ===== src/Oauth.antt =====
-- The OAuth side of the remote MCP (src/auth-broker/app/mcp_oauth): its tables, a child for each
-- group of methods of store.py, and the endpoints of provider.py.
pub mod Store
pub mod Clients
pub mod Transactions
pub mod Codes
pub mod Families
pub mod Tokens
pub mod Provider
mod Tests
mod FlowTests
mod RegisterTests
