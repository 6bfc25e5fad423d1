-- ===== src/Examples.antt =====
-- Runs of the theorems at concrete inputs.
mod World
mod Wire
mod Managers
mod Server
mod Sessions
mod Passwords
mod Clients
mod Connections
mod Files
mod Polling
mod Texts
