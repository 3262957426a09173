-- ===== src/Irc/Setup/Nicks.antt =====
-- The registry of nicknames, as the setup of a connection reads and writes it.
use chatripper.Common.{bytes_key}
use chatripper.Env.{Env}
