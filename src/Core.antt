-- ===== src/Core.antt =====
-- ctx.cpp and core/: the caches, the accounts, the channels and the metadata of both.
pub mod Caches
pub mod Channels
pub mod Accounts
pub mod Metadata
pub mod Directory
