-- ===== src/Lib.antt =====
-- A model of the chat server chatripper, and the theorems about it.
--
-- The program (src/ of the repository) is an IRC server in C++ over Qt. TCP connections come in at
-- irc/threaded_server.cpp, which counts them for each address and deals them to worker threads
-- (irc/worker.cpp). A connection (irc/client_connection.cpp) cuts the byte stream into lines, splits
-- a line into words and runs the handler of the command. Handlers read and write accounts
-- (core/account.cpp), channels (core/channel.cpp) and the caches of the context (ctx.cpp), and tell
-- other connections by calls that are direct or posted to an event loop. A web server beside it keeps
-- login sessions and limits the rate of requests (web/).
--
-- The files:
--   * Common: tests on numbers, `QByteArray` and `QList` operations on lists, `QMap` as an association
--     list in the order of its keys, bits, points in time, and Outcome: a call returns, deadlocks or
--     fails (a null pointer, the end of a list, an exception).
--   * Bitflags: lib/bitflags.h. Caps and Modes: irc/caps.h, irc/modes.h and irc/modes.cpp, and the
--     set-up tasks of irc/client_connection.h.
--   * Tags: irc/utils.cpp, message tags; its children carry the round trip and the bounds.
--   * Lines: `onReadyRead`, `split_irc` and `irc_lower` of irc/client_connection.cpp, and
--     `isValidNick` of irc/utils.h.
--   * State: the objects of core/ and irc/ as records in three heaps, with pointers as numbers and
--     null as 0, and World, which holds the heaps, the caches of ctx.h and what was sent, posted and
--     stored. Env: what comes from outside.
--   * Core.Caches: ctx.cpp. Core.Channels: core/channel.cpp, with `setMode` and the lock of the channel
--     in Core.Channels.Mode. Core.Accounts: core/account.cpp. Core.Metadata: core/metadata.cpp.
--     Core.Directory: core/server.cpp, core/role.cpp, core/permission.cpp and core/upload.cpp, with
--     the caches of their objects.
--   * Irc: irc/client_connection.cpp. Reply: the lines that a connection writes. Messages
--     and Notify: what it is told (`message`; `channel_join`, `channel_part`, `channel_rename`,
--     `change_nick`). Modes: `handleMODE`. Info: LUSERS, MOTD, WHO, PING, CHATHISTORY. Rooms: JOIN,
--     PART, PRIVMSG, TAGMSG, RENAME. Setup: `try_finalize_setup`. Register: PASS, NICK and USER.
--     Cap: `handleCAP`. Login: `handleAUTHENTICATE`. Metadata: `handleMETADATA` and `metadata`.
--     Dispatch: `parseIncoming`, `init`, `onSocketDisconnected`.
--   * Peers: `incomingConnection`, the workers and the release of an address.
--   * Python: python/manager.cpp, which events have a handler and which interpreter a call goes to.
--   * Sql: lib/sql.cpp, each statement as a function of the tables, checked against the columns and
--     constraints that the schema gives. Sql.Roles has the uploads and the roles, Sql.Servers the
--     servers with their members, Sql.Channels also the initial loading of ctx.cpp, and Sql.Preload
--     the file that is loaded at the start, after its parsing.
--   * Web: web/ratelimiter.cpp, web/sessionstore.cpp and web/routes/utils.cpp. Web.Files:
--     web/routes/uploadroute.cpp and web/routes/static.cpp. Web.Login: web/routes/authroute.cpp.
--   * Examples: a small server on which the theorems are applied.
--
-- How the code is rendered. A handler is a function of the connection's pointer and the World, and
-- gives the World after it. A `QByteArray` is the list of its bytes; a `QString` the list of its
-- codes. The order in which a `QHash` or a `QSet` is walked is not specified by Qt; the model takes
-- that of the keys, or of insertion. A lock is modelled where one thread takes it twice
-- (`Channel::setMode`, the methods of `Server`, `mtx_cache` in `server_add_member`); elsewhere a
-- call holds its locks to the end and is one step. The clock and random values are arguments.
--
-- Fuel. `receive` makes at most one round for each byte that waits, `cut_lines` one for each byte of
-- the buffer, `chunks` one for each byte of the line, `read_pages` one for each row, and each of them
-- one more to see the end; the theorems about them show that this is enough. `digits`
-- has ten rounds, as many as an `int` has digits.
--
-- Not modelled. The handlers of the operator's Python modules are functions of Env.Plugin, taken to
-- change the event that they are given and nothing else. bcrypt, base64, `toInt`, `fromUtf8`,
-- `toUpper` and the rows of the database are functions of Env. Sockets, threads, connections to the
-- database, the search client, files, the configuration and the JSON views are outside. The foreign
-- keys of the tables are checked for the members of a server alone: any other insertion is taken to
-- refer to rows that are there. A driver that sends a `QByteArray` as `bytea` is a parameter where a
-- key is removed; the names of servers and channels, which are bound so both to store and to find
-- them, are compared as they are. The order of the rows in each batch is a parameter.
pub mod Common
pub mod Bitflags
pub mod Caps
pub mod Tags
pub mod Modes
pub mod Lines
pub mod State
pub mod Env
pub mod Core
pub mod Irc
pub mod Peers
pub mod Python
pub mod Sql
pub mod Web
pub mod Examples
