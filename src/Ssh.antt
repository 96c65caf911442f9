-- ===== src/Ssh.antt =====
-- internal/ssh: the connection manager, its registry and the commands that run on a router.
pub mod Words
pub mod Config
pub mod Manager
pub mod Registry
pub mod Uptime
pub mod Commands
pub mod Runner
