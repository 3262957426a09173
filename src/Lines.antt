-- ===== src/Lines.antt =====
-- irc/client_connection.cpp: from the bytes of a socket to the words of a command.
-- `Framing` cuts the byte stream into lines, `Words` cuts a line into a command and its
-- parameters, and `Nick` is the test of nicknames (irc/utils.h).
pub mod Framing
pub mod Words
pub mod Nick
