-- ===== src/Examples.antt =====
-- A small server, and the theorems applied to it.
pub mod Data
mod Rooms
mod Accounts
mod Connections
mod Text
mod Peers
mod Web
mod Files
mod Servers
mod Storage
mod Commands
mod Modules
