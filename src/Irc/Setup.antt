-- ===== src/Irc/Setup.antt =====
-- irc/client_connection.cpp: `try_finalize_setup`, which makes a connection ready when all of the
-- setup is done.
pub mod Access
pub mod Nicks
pub mod Rejoin
use chatripper.Common.{
  ℕ, ◌+◌, Bool, true, false, not, ◌&&◌, Option, none, some, List, [], ◌∷◌, ◌++◌, Bytes, codes,
  is_empty, length, ltb, to_lower, nat_eqb, contains, has_key, nat_key, if◌then◌else◌, Map,
  bytes_key, ◌==◌,
}
use chatripper.Common.Outcome.{Outcome, done, deadlock, fault, ◌>>=◌}
use chatripper.Bitflags
use chatripper.Modes.Setup as SetupTasks
use chatripper.Modes.Setup.{setup_task_flags}
use chatripper.State.{
  Account, Connection, World, NickEvent, is_null, send_data, set_account, set_connection,
}
use chatripper.Env.{Env}
use chatripper.Lines.Nick.{is_valid_nick}
use chatripper.Core.Caches.{
  account_username_exists, irc_nick_get, irc_nicks_insert_cache, account_insert_cache,
}
use chatripper.Core.Channels.{join}
use chatripper.Core.Accounts.{create, add_connection, set_nick}
use chatripper.Irc.Reply.{account_nick, nick, send_raw, reply_num, force_disconnect, crlf}
use chatripper.Irc.Info.{handle_lusers, handle_motd}
use chatripper.Irc.Modes.{handle_mode}

abbrev irc_max_len : ℕ
irc_max_len = 480

unfoldable isupport_token : Bytes × Bytes → Bytes
isupport_token (key, value) = if is_empty value then key else key ++ (codes "=" ++ value)

-- The lines that the loop over the table sends, in order; `base` starts each of them.
unfoldable pub isupport_lines : Bytes → Map Bytes Bytes → Bytes → List Bytes
unfolding isupport_token
isupport_lines base [] current =
    if current == base then [] else (current ++ codes " :are supported by this server") ∷ []
isupport_lines base (entry ∷ rest) current =
    let token = isupport_token entry in
    let full = ltb irc_max_len (length current + length token + 1) in
    let start = if full then base else current in
    let next = (if start == base then start else start ++ codes " ") ++ token in
    let others = isupport_lines base rest next in
    if full then (current ++ codes ":are supported by this server") ∷ others else others

unfoldable pub is_setup_done : Connection → Bool
is_setup_done conn = Bitflags.empty conn.setup_tasks

module _ (env : Env) where
  unfoldable pub send_each : ℕ → List Bytes → World → World
  unfolding send_raw
  send_each c [] w = w
  send_each c (line ∷ rest) w = send_each c rest (send_raw env c line w)

  -- The tests that turn a connection away: the server's password, and the nickname of a connection
  -- that has no account yet.
  unfoldable pub is_password_wrong : Connection → Bool
  is_password_wrong conn =
      if is_empty env.server_password
      then false
      else if is_empty conn.pass_given
      then true
      else not (conn.pass_given == env.server_password)

  unfoldable pub is_nick_taken : Connection → World → Bool
  unfolding irc_nick_get
  is_nick_taken conn w = is_null conn.account && not (is_null (irc_nick_get (to_lower conn.nick) w))

  -- A connection without an account is given a new one, with its nickname.
  unfoldable pub ensure_account : ℕ → World → World
  unfolding create account_insert_cache
  ensure_account c w =
      let conn = w.connection_at c in
      if is_null conn.account
      then (let (a, made) = create env w in
          account_insert_cache a (
            set_connection c (record conn { account = a })
              (set_account a
                (record (made.account_at a) { nick = conn.nick; uid = env.create_uuid a }) made)))
      else w

  -- The nickname of the account takes the place of the one that the client asked for.
  unfoldable pub sync_nick : ℕ → World → World
  unfolding account_nick
  sync_nick c w =
      let conn = w.connection_at c in
      let own = account_nick conn.account w in
      if own == conn.nick
      then w
      else send_data c
          (codes ":"
            ++ (conn.nick
                ++ (codes "!"
                    ++ (conn.user
                        ++ (codes "@" ++ (conn.host ++ (codes " NICK :" ++ (own ++ crlf))))))))
          (set_connection c (record conn { nick = own }) w)

  -- The account knows the connection, and the registry the nickname.
  unfoldable pub register : ℕ → World → World
  unfolding add_connection irc_nicks_insert_cache nick
  register c w =
      let a = (w.connection_at c).account in
      let v = add_connection a c w in irc_nicks_insert_cache (nick c v) a v

  unfoldable pub send_welcome : ℕ → World → World
  unfolding reply_num isupport_lines send_each account_nick
  send_welcome c w =
      let base = codes "005 " ++ (account_nick (w.connection_at c).account w ++ codes " ") in
      send_each c (isupport_lines base env.isupport base) (
        reply_num env c 4 (env.server_name ++ codes " wut-7.2.2+bla.7.3 what is this.") (
          reply_num env c 3 (codes "This server was created Dec 21 1989 at 13:37:00 (lie)") (
            reply_num env c 2
              (codes "Your host is "
                ++ (env.server_name ++ codes ", running version chatripper-0.1"))
              (reply_num env c 1 (codes "Hi, welcome to IRC") w))))

  -- `join` enters another name into the `QHash` that the loop walks over.
  abbrev pub is_disturbed : ℕ → ℕ → World → Bool
  is_disturbed a ch w =
      not (contains (w.channel_at ch).members a)
      && not (has_key (w.channel_at ch).name (w.account_at a).channels)

  -- The channels of the account are joined again. The table may hold a null pointer, and an insertion
  -- leaves the loop with an iterator that is not valid any more.
  unfoldable pub rejoin : ℕ → Map Bytes ℕ → World → Outcome World
  unfolding join
  rejoin a [] w = done w
  rejoin a ((name, ch) ∷ rest) w =
      if is_null ch
      then fault
      else if is_disturbed a ch w
      then fault
      else rejoin a rest (join env ch (record { channel = ch; account = a; from_system = true }) w)

  unfoldable pub set_ready : ℕ → World → World
  set_ready c w = set_connection c (record (w.connection_at c) { is_ready = true }) w

  -- What follows the tests, up to the mode `+r` of a login; that mode; and the rest.
  unfoldable pub greet : ℕ → World → World
  unfolding ensure_account sync_nick register send_welcome handle_lusers handle_motd
  greet c w =
      handle_motd env c
        (handle_lusers env c (send_welcome c (register c (sync_nick c (ensure_account c w)))))

  unfoldable pub mark_registered : ℕ → World → Outcome World
  unfolding handle_mode nick
  mark_registered c w =
      if (w.connection_at c).logged_in
      then handle_mode env c (nick c w ∷ codes "+r" ∷ []) w
      else done w

  unfoldable pub complete : ℕ → World → Outcome World
  unfolding rejoin set_ready
  complete c w =
      let a = (w.connection_at c).account in
      rejoin a (w.account_at a).channels w >>= λ v. done (set_ready c v)

  unfoldable pub finalize : ℕ → World → Outcome World
  unfolding greet mark_registered complete
  finalize c w = mark_registered c (greet c w) >>= λ v. complete c v

  -- A reply, and the end of the connection.
  unfoldable pub refuse : ℕ → ℕ → Bytes → World → World
  unfolding reply_num force_disconnect
  refuse c code text w = force_disconnect c (reply_num env c code text w)

  unfoldable pub try_finalize_setup : ℕ → World → Outcome World
  unfolding is_setup_done is_password_wrong is_nick_taken finalize refuse
  try_finalize_setup c w =
      if (w.connection_at c).is_ready
      then done w
      else if not (is_setup_done (w.connection_at c))
      then done w
      else if is_password_wrong (w.connection_at c)
      then done (refuse c 464 (codes "Password incorrect") w)
      else if is_nick_taken (w.connection_at c) w
      then done (refuse c 433 ((w.connection_at c).nick ++ codes " :Nickname is already in use") w)
      else finalize c w
