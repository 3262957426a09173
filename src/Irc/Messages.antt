-- ===== src/Irc/Messages.antt =====
-- irc/client_connection.cpp: `message`, the line that a connection is sent of a message.
use chatripper.Common.{
  ℕ, not, ◌&&◌, Option, none, some, [], ◌∷◌, ◌++◌, Bytes, codes, join, nat_eqb, if◌then◌else◌,
  nat_key, bytes_key,
}
use chatripper.Bitflags
use chatripper.Caps.{echo_message, znc_self_message, capability_flags}
use chatripper.Tags.{build_message_tags}
use chatripper.State.{World, Message, to_channel, to_account, is_null, send_data}
use chatripper.Irc.Reply.{account_nick, account_prefix, prefix, crlf}

-- The account whose name goes into the account tag.
abbrev pub account_name : ℕ → World → Option Bytes
account_name a w = if is_null a then none else some (w.account_at a).name

unfoldable pub target_text : Message → World → Bytes
unfolding account_nick
target_text m w = elim m.target [
  | to_channel ch ↦ codes "#" ++ (w.channel_at ch).name
  | to_account dest ↦ account_nick dest w
]

-- The prefix of a message, and `none` for the early return: the client's own message comes back
-- only if it asked for that.
unfoldable pub message_prefix : ℕ → Message → World → Option Bytes
unfolding prefix account_prefix
message_prefix c m w =
    let conn = w.connection_at c in
    if nat_eqb m.account conn.account
    then (if Bitflags.has echo_message conn.capabilities
        then some (prefix c w)
        else if Bitflags.has znc_self_message conn.capabilities && not (nat_eqb conn.uid m.conn_id)
        then some (prefix c w)
        else none)
    else some (account_prefix [] m.account w)

-- The line of a message, for the connection that reads it.
unfoldable pub message_line : Bytes → ℕ → Message → World → Bytes
unfolding target_text build_message_tags
message_line from c m w =
    let tags =
      build_message_tags (w.connection_at c).capabilities (account_name m.account w) m.tags in
    let head =
      (tags ++ (codes ":" ++ from))
      ∷ (if m.tag_msg then codes "TAGMSG" else codes "PRIVMSG")
      ∷ target_text m w
      ∷ [] in
    let words = if m.tag_msg then head else head ++ (codes ":" ++ m.text) ∷ [] in
    join (codes " ") words ++ crlf

unfoldable pub message : ℕ → Message → World → World
unfolding message_prefix message_line
message c m w = elim (message_prefix c m w) [
  | none ↦ w
  | some from ↦ send_data c (message_line from c m w) w
]
