-- ===== src/Irc/Notify.antt =====
-- irc/client_connection.cpp, what a connection is told: `channel_join`, `channel_part`,
-- `channel_rename` and `change_nick`.
pub mod Parts
use chatripper.Common.{
  ℕ, Bool, true, false, not, ◌&&◌, ◌||◌, Option, none, some, List, [], ◌∷◌, ◌++◌, map, Bytes, codes,
  is_empty, join, contains, nat_eqb, if◌then◌else◌, Map, find, insert, remove, has_key, nat_key,
  bytes_key, ◌==◌,
}
use chatripper.Bitflags
use chatripper.Caps.{echo_message, znc_self_message, channel_rename, capability_flags}
use chatripper.Tags.{build_message_tags}
use chatripper.State.{
  Account, Channel, Connection, World, Message, Target, to_channel, to_account, JoinEvent,
  PartEvent, RenameEvent, NickEvent, Call, call_part, call_rename, call_nick, is_null, send_data,
  set_connection, add_to_set, add_all_to_set,
}
use chatripper.Env.{Env}
use chatripper.Irc.Reply.{
  account_nick, account_prefix, nick, prefix, reply_self, crlf, send_raw, reply_num,
}

-- `channel_members[channel]`, empty if there is no entry.
unfoldable pub members_of : ℕ → Map ℕ (List ℕ) → List ℕ
members_of ch m = elim (find ch m) [ none ↦ [] | some members ↦ members ]

-- The names of a NAMES reply.
unfoldable member_names : List ℕ → World → List Bytes
unfolding account_nick
member_names [] w = []
member_names (a ∷ rest) w =
    (if is_empty (account_nick a w) then (w.account_at a).name else account_nick a w)
    ∷ member_names rest w

module _ (env : Env) where
  -- What a client reads when it has joined: the topic and the names.
  unfoldable pub send_topic : ℕ → ℕ → World → World
  unfolding reply_num send_raw nick
  send_topic c ch w =
      let channel = w.channel_at ch in
      if is_empty channel.topic
      then reply_num env c 331 (codes "#" ++ (channel.name ++ codes " :No topic is set")) w
      else send_raw env c
          (codes "332 "
            ++ (nick c w ++ (codes " #" ++ (channel.name ++ (codes " :" ++ channel.topic)))))
          w

  unfoldable pub send_names : ℕ → ℕ → World → World
  unfolding send_raw nick member_names
  send_names c ch w =
      let channel = w.channel_at ch in
      let own = nick c w in
      send_raw env c
        (codes "366 " ++ (own ++ (codes " #" ++ (channel.name ++ codes " :End of NAMES list"))))
        (send_raw env c
          (codes "353 "
            ++ (own
                ++ (codes " = #"
                    ++ (channel.name
                        ++ (codes " :" ++ join (codes " ") (member_names channel.members w))))))
          w)

  -- Another account joined: a line, and an entry in this connection's list of members.
  unfoldable pub note_join : ℕ → JoinEvent → World → World
  unfolding account_prefix members_of add_to_set
  note_join c ev w =
      let sent =
        send_data c
          (codes ":"
            ++ (account_prefix [] ev.account w
                ++ (codes " JOIN :#" ++ ((w.channel_at ev.channel).name ++ crlf))))
          w in
      let conn = sent.connection_at c in
      set_connection c
        (record conn {
          channel_members =
              insert ev.channel (add_to_set ev.account (members_of ev.channel conn.channel_members))
                conn.channel_members;
        })
        sent

  -- This account joined: the early return if the connection is in the channel already.
  unfoldable pub enter_channel : ℕ → JoinEvent → World → World
  unfolding members_of add_all_to_set reply_self send_topic send_names
  enter_channel c ev w =
      let conn = w.connection_at c in
      let channel = w.channel_at ev.channel in
      if has_key channel.name conn.channels
      then w
      else send_names c ev.channel (
          send_topic c ev.channel (
            reply_self c (codes "JOIN") (codes ":#" ++ channel.name) (
              set_connection c
                (record conn {
                  channel_members =
                      insert ev.channel
                        (add_all_to_set channel.members
                          (members_of ev.channel conn.channel_members))
                        conn.channel_members;
                  channels = insert channel.name ev.channel conn.channels;
                })
                w)))

  unfoldable pub channel_join : ℕ → JoinEvent → World → World
  unfolding note_join enter_channel
  channel_join c ev w =
      if is_null ev.channel
      then w
      else if not (nat_eqb ev.account (w.connection_at c).account)
      then note_join c ev w
      else enter_channel c ev w

-- The account of the event is that of the connection, by their UUID.
unfoldable pub is_own_part : ℕ → PartEvent → World → Bool
is_own_part c ev w =
    nat_eqb (w.account_at ev.account).uid (w.account_at (w.connection_at c).account).uid

unfoldable leave_channel : ℕ → PartEvent → World → World
unfolding reply_self
leave_channel c ev w =
    let conn = w.connection_at c in
    let name = (w.channel_at ev.channel).name in
    reply_self c (codes "PART") (codes ":#" ++ name) (
      set_connection c
        (record conn {
          channel_members = remove ev.channel conn.channel_members;
          channels = remove name conn.channels;
        })
        w)

unfoldable part_line : PartEvent → World → Bytes
unfolding account_prefix
part_line ev w =
    let reason = if is_empty ev.message then [] else codes " :" ++ ev.message in
    codes ":"
    ++ (account_prefix [] ev.account w
        ++ (codes " PART #" ++ ((w.channel_at ev.channel).name ++ (reason ++ crlf))))

unfoldable pub note_part : ℕ → PartEvent → World → World
unfolding part_line
note_part c ev w =
    let conn = w.connection_at c in
    set_connection c (record conn { channel_members = remove ev.channel conn.channel_members })
      (send_data c (part_line ev w) w)

unfoldable pub channel_part : ℕ → PartEvent → World → World
unfolding is_own_part leave_channel members_of note_part
channel_part c ev w =
    let known = (w.connection_at c).channel_members in
    if is_own_part c ev w
    then leave_channel c ev w
    else if not (has_key ev.channel known)
    then w
    else if not (contains (members_of ev.channel known) ev.account)
    then w
    else note_part c ev w

unfoldable notify_rename : ℕ → RenameEvent → World → World
unfolding prefix
notify_rename c ev w =
    let from = codes "#" ++ ev.old_name in
    let to = codes "#" ++ ev.new_name in
    if ev.old_name == ev.new_name
    then w
    else if Bitflags.has channel_rename (w.connection_at c).capabilities
    then (let text = if is_empty ev.message then [] else codes ": " ++ ev.message in
        send_data c
          (codes ":"
            ++ (prefix c w
                ++ (codes " RENAME " ++ (from ++ (codes " " ++ (to ++ (text ++ crlf)))))))
          w)
    else send_data c (codes ":" ++ (prefix c w ++ (codes " JOIN #" ++ (to ++ crlf)))) (
        send_data c
          (codes ":"
            ++ (prefix c w
                ++ (codes " PART #" ++ (from ++ (codes ":Changing the channel name" ++ crlf)))))
          w)

unfoldable change_nick : ℕ → NickEvent → World → World
unfolding nick account_prefix
change_nick c ev w =
    let conn = w.connection_at c in
    let line = codes " NICK :" ++ (ev.new_nick ++ crlf) in
    if nat_eqb ev.account conn.account
    then (if conn.nick == nick c w
        then w
        else send_data c
            (codes ":"
              ++ (ev.old_nick ++ (codes "!" ++ (conn.user ++ (codes "@" ++ (conn.host ++ line))))))
            w)
    else send_data c (codes ":" ++ (account_prefix ev.old_nick ev.account w ++ line)) w

-- The event loop of a connection's thread runs a posted call.
unfoldable run_call : Call → World → World
unfolding channel_part notify_rename change_nick
run_call (call_part c ev) w = channel_part c ev w
run_call (call_rename c ev) w = notify_rename c ev w
run_call (call_nick c ev) w = change_nick c ev w
