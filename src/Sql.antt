-- ===== src/Sql.antt =====
-- lib/sql.cpp: the statements that the program sends to its database. A statement is a function of
-- the tables; what it may refer to is read off `create_schema`. A bound value arrives as it is, and
-- `up` says whether the connection works, without which every statement fails. A query lists rows in the order
-- in which they came in.
pub mod Schema
pub mod Database
pub mod Rows
pub mod Metadata
pub mod Messages
pub mod Pages
pub mod Accounts
pub mod Channels
pub mod Sync
pub mod Refused
pub mod Roles
pub mod Servers
pub mod Preload
