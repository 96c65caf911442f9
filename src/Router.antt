-- ===== src/Router.antt =====
-- internal/router: the controller's client of the agent.
pub mod Client
pub mod Wire
pub mod EndToEnd
pub mod Tunnel
pub mod Connection
mod Samples
pub mod Allocated
pub mod Reads
pub mod Conflict
