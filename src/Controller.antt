-- ===== src/Controller.antt =====
-- internal/controller/publicipclaim_controller.go
pub mod Pool
pub mod Names
pub mod Reconcile
pub mod Credentials
pub mod Script
pub mod Verification
pub mod Tracking
pub mod Managers
pub mod Cleanup
pub mod Visits
pub mod Events
pub mod Wiring
pub mod Recovery
pub mod Example
mod Samples
