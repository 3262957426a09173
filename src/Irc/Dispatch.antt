-- ===== src/Irc/Dispatch.antt =====
-- irc/client_connection.cpp: `init`, `parseIncoming` and `onSocketDisconnected`.
pub mod Faults
use chatripper.Common.{
  ℕ, ◌+◌, Bool, true, false, not, ◌&&◌, Option, none, some, List, [], ◌∷◌, ◌++◌, Bytes, codes, drop,
  trimmed, starts_with, if◌then◌else◌, bytes_key, ◌==◌,
}
use chatripper.Common.Outcome.{Outcome, done, fault}
use chatripper.Bitflags
use chatripper.Bitflags.{no_flags}
use chatripper.Caps.{message_tags, capability_flags}
use chatripper.Modes.Setup as SetupTasks
use chatripper.Modes.Setup.{setup_task_flags}
use chatripper.State.{Connection, World, is_null}
use chatripper.Env.{Env, RawEvent, raw_msg, verify_msg_tags, converted, message_event}
use chatripper.Core.Channels.{is_cancelled}
use chatripper.Tags.{TagMap, parse_message_tags}
use chatripper.Lines.Words.{split_irc}
use chatripper.Core.Accounts.{on_connection_disconnected}
use chatripper.Irc.Reply.{nick, force_disconnect}
use chatripper.Irc.Modes.{handle_mode}
use chatripper.Irc.Info.{handle_lusers, handle_motd, handle_who, handle_ping, handle_chathistory}
use chatripper.Irc.Metadata.{handle_metadata}
use chatripper.Irc.Rooms.{handle_join, handle_part, handle_privmsg, handle_tagmsg, handle_rename}
use chatripper.Irc.Register.{handle_pass, handle_nick, handle_user}
use chatripper.Irc.Cap.{handle_cap}
use chatripper.Irc.Login.{handle_authenticate}

-- A connection as the constructor and `init` leave it; `uid` is a fresh `QUuid`.
unfoldable new_connection : Env → ℕ → Connection
new_connection env uid = record {
  setup_tasks =
      Bitflags.set_each (SetupTasks.cap_exchange ∷ SetupTasks.nick ∷ SetupTasks.user ∷ []) no_flags;
  capabilities = no_flags;
  user_modes = no_flags;
  logged_in = false;
  user = [];
  realname = [];
  channels = [];
  channel_members = [];
  account = 0;
  is_ready = false;
  user_already_exists = false;
  nick = [];
  pass_given = [];
  host = env.default_host;
  uid = uid;
  closing = false;
}

-- Whether the line is read for tags.
unfoldable pub may_have_tags : Connection → Bytes → Bool
may_have_tags conn line =
    not (is_null conn.account)
    && starts_with b'@' line
    && Bitflags.has message_tags conn.capabilities

-- The tags of a line, and the line without them.
unfoldable pub strip_tags : Connection → Bytes → TagMap × Bytes
unfolding may_have_tags parse_message_tags
strip_tags conn line =
    if may_have_tags conn line
    then (let (tags, tags_end) = parse_message_tags line in
        (tags, trimmed (elim tags_end [ none ↦ line | some e ↦ drop (e + 1) line ])))
    else ([], trimmed line)

module _ (env : Env) where
  -- `handleJOIN`, behind a test that reads the first parameter.
  unfoldable pub guarded_join : ℕ → List Bytes → World → Outcome World
  unfolding handle_join
  guarded_join c [] w = fault
  guarded_join c (name ∷ []) w =
      if name == codes ":" then done w else done (handle_join env c (name ∷ []) w)
  guarded_join c (name ∷ rest) w = done (handle_join env c (name ∷ rest) w)

  -- The commands that a connection may give before it is ready.
  unfoldable pub dispatch_setup : ℕ → Bytes → List Bytes → World → Option (Outcome World)
  unfolding handle_pass handle_nick handle_user handle_ping force_disconnect handle_motd
      handle_authenticate handle_cap
  dispatch_setup c cmd params w =
      if cmd == codes "PASS"
      then some (done (handle_pass env c params w))
      else if cmd == codes "NICK"
      then some (handle_nick env c params w)
      else if cmd == codes "USER"
      then some (handle_user env c params w)
      else if cmd == codes "PING"
      then some (done (handle_ping env c params w))
      else if cmd == codes "PONG"
      then some (done w)
      else if cmd == codes "QUIT"
      then some (done (force_disconnect c w))
      else if cmd == codes "MOTD"
      then some (done (handle_motd env c w))
      else if cmd == codes "AUTHENTICATE"
      then some (done (handle_authenticate env c params w))
      else if cmd == codes "CAP"
      then some (handle_cap env c params w)
      else none

  -- The commands that take a ready connection; NAMES and TOPIC do nothing.
  unfoldable pub dispatch_ready : ℕ → TagMap → Bytes → List Bytes → World → Outcome World
  unfolding guarded_join handle_part handle_privmsg handle_tagmsg handle_chathistory handle_rename
      handle_lusers handle_who handle_mode handle_metadata
  dispatch_ready c tags cmd params w =
      if cmd == codes "JOIN"
      then guarded_join c params w
      else if cmd == codes "PART"
      then done (handle_part env c params w)
      else if cmd == codes "PRIVMSG"
      then done (handle_privmsg env c tags params w)
      else if cmd == codes "TAGMSG"
      then done (handle_tagmsg env c tags params w)
      else if cmd == codes "CHATHISTORY"
      then done (handle_chathistory env c params w)
      else if cmd == codes "RENAME"
      then done (handle_rename env c params w)
      else if cmd == codes "METADATA"
      then done (handle_metadata env c params w)
      else if cmd == codes "LUSERS"
      then done (handle_lusers env c w)
      else if cmd == codes "WHO"
      then done (handle_who env c params w)
      else if cmd == codes "MODE"
      then handle_mode env c params w
      else done w

  -- The chain of tests of `parseIncoming`.
  unfoldable pub dispatch : ℕ → TagMap → Bytes → List Bytes → World → Outcome World
  unfolding dispatch_setup dispatch_ready
  dispatch c tags cmd params w = elim (dispatch_setup c cmd params w) [
    | some out ↦ out
    | none ↦ if (w.connection_at c).is_ready then dispatch_ready c tags cmd params w else done w
  ]

  unfoldable pub run_words : ℕ → TagMap → List Bytes → World → Outcome World
  unfolding dispatch
  run_words c tags [] w = done w
  run_words c tags (cmd ∷ params) w = dispatch c tags cmd params w

  -- The event RAW_MSG: the line as the modules leave it, and `none` if they cancel it.
  unfoldable pub read_raw : Bytes → Option Bytes
  read_raw line =
      if env.plugin.has_handler raw_msg
      then (let (ev, converts) = env.plugin.on_raw line in
          if not converts then some line else if ev.cancelled then none else some ev.raw)
      else some line

  -- The event VERIFY_MSG_TAGS; the answer is read as if it were a `Message`.
  unfoldable pub is_stopped_by_tags : Connection → Bytes → TagMap → Bytes → Bool
  unfolding may_have_tags converted
  is_stopped_by_tags conn line tags text =
      may_have_tags conn line
      && env.plugin.has_handler verify_msg_tags
      && is_cancelled (converted message_event (env.plugin.on_tags text tags))

  unfoldable pub parse_line : ℕ → Bytes → World → Outcome World
  unfolding strip_tags split_irc run_words is_stopped_by_tags
  parse_line c line w =
      let (tags, text) = strip_tags (w.connection_at c) line in
      if is_stopped_by_tags (w.connection_at c) line tags text
      then done w
      else run_words c tags (split_irc text) w

  unfoldable pub parse_incoming : ℕ → Bytes → World → Outcome World
  unfolding read_raw parse_line
  parse_incoming c line w = elim (read_raw line) [ none ↦ done w | some kept ↦ parse_line c kept w ]

-- `onSocketDisconnected`, less the signal
unfoldable on_socket_disconnected : ℕ → World → World
unfolding nick on_connection_disconnected
on_socket_disconnected c w =
    let a = (w.connection_at c).account in
    if is_null a then w else on_connection_disconnected a c (nick c w) w
