-- ===== src/Irc.antt =====
-- irc/client_connection.cpp: one connection of a client, its handlers and what it is told.
pub mod Reply
pub mod Notify
pub mod Messages
pub mod Modes
pub mod Info
pub mod Rooms
pub mod Setup
pub mod Register
pub mod Cap
pub mod Login
pub mod Metadata
pub mod Dispatch
