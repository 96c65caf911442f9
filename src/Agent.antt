-- ===== src/Agent.antt =====
-- internal/agent: the agent that holds leases on the router.
pub mod Network
pub mod Garp
pub mod Quiet
pub mod Dhcp
pub mod State
pub mod Store
pub mod Allocation
pub mod Handlers
pub mod Rollback
pub mod Persistence
pub mod Locking
pub mod Renewal
pub mod Rounds
pub mod Unsaved
pub mod Rebound
pub mod Server
pub mod Machine
pub mod Life
pub mod Box
mod Samples
