-- ===== src/Modes.antt =====
-- irc/modes.h and irc/modes.cpp: the modes of users and channels, and their letters; and the tasks
-- of a connection's setup (irc/client_connection.h).
pub mod User
pub mod Channel
pub mod Setup
