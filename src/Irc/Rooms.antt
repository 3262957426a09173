-- ===== src/Irc/Rooms.antt =====
-- irc/client_connection.cpp, the handlers that reach other users: JOIN, PART, PRIVMSG, TAGMSG,
-- RENAME and QUIT.
use chatripper.Common.{
  ℕ, ◌+◌, Bool, true, false, Option, none, some, List, [], ◌∷◌, ◌++◌, Bytes, codes, is_empty, drop,
  split, starts_with, if◌then◌else◌,
}
use chatripper.Common
use chatripper.State.{World, Message, to_channel, to_account, is_null, send_data}
use chatripper.Env.{Env}
use chatripper.Tags.{TagMap}
use chatripper.Core.Caches.{get_channel, irc_nick_get}
use chatripper.Core.Channels
use chatripper.Core.Channels.{get_or_create, join, part, rename}
use chatripper.Core.Accounts.{private_message}
use chatripper.Irc.Reply.{nick, prefix, send_raw, reply_num, crlf}
use chatripper.Irc.Info.{remove_hash}

module _ (env : Env) where
  -- One round of the loop of `handleJOIN`. `get_or_create` never returns null.
  unfoldable join_one : ℕ → Bytes → World → World
  unfolding get_or_create join
  join_one c name w =
      if is_empty (drop 1 name)
      then w
      else let (ch, made) = get_or_create (drop 1 name) w in
        join env ch
          (record { channel = ch; account = (w.connection_at c).account; from_system = false }) made

  unfoldable join_each : ℕ → List Bytes → World → World
  unfolding join_one
  join_each c [] w = w
  join_each c (name ∷ rest) w = join_each c rest (join_one c name w)

  unfoldable pub handle_join : ℕ → List Bytes → World → World
  unfolding reply_num join_each
  handle_join c [] w = reply_num env c 461 (codes "JOIN :Not enough parameters") w
  handle_join c (names ∷ _) w = join_each c (split b',' names) w

  abbrev not_on_channel : ℕ → Bytes → World → World
  not_on_channel c name w =
      send_raw env c
        (codes "442 "
          ++ (nick c w ++ (codes " " ++ (name ++ codes " :You're not on that channel"))))
        w

  abbrev try_part : ℕ → Bytes → ℕ → World → Bool × World
  try_part c text ch w =
      if is_null ch
      then (false, w)
      else part env ch
          (record {
            channel = ch;
            account = (w.connection_at c).account;
            message = text;
            from_system = false;
          })
          w

  -- The loop of `handlePART`; it ends at the first channel that the account parts from.
  unfoldable part_each : ℕ → Bytes → List Bytes → World → World
  unfolding get_channel part nick send_raw
  part_each c text [] w = w
  part_each c text (name ∷ rest) w = elim (starts_with b'#' name) [
    | false ↦ part_each c text rest w
    | true ↦
        let (parted, v) = try_part c text (get_channel (drop 1 name) w) w in
        elim parted [ true ↦ v | false ↦ part_each c text rest (not_on_channel c (drop 1 name) v) ]
  ]

  abbrev first_or_empty : List Bytes → Bytes
  first_or_empty [] = []
  first_or_empty (a ∷ _) = a

  unfoldable pub handle_part : ℕ → List Bytes → World → World
  unfolding reply_num part_each
  handle_part c [] w = reply_num env c 461 (codes "PART :Not enough parameters") w
  handle_part c (names ∷ rest) w = part_each c (first_or_empty rest) (split b',' names) w

  abbrev no_such_nick : ℕ → Bytes → World → World
  no_such_nick c target w =
      send_raw env c
        (codes "401 " ++ (nick c w ++ (codes " " ++ (target ++ codes " :No such nick/channel")))) w

  abbrev new_message : ℕ → Bytes → Bytes → TagMap → Bool → World → Message
  new_message c text raw tags tag_msg w =
      let conn = w.connection_at c in
      record {
        account = conn.account;
        conn_id = conn.uid;
        nick = nick c w;
        user = conn.user;
        host = conn.host;
        text = text;
        raw = raw;
        tags = tags;
        target = to_channel 0;
        tag_msg = tag_msg;
      }

  -- The part that `handlePRIVMSG` and `handleTAGMSG` share, from the test of the target on.
  unfoldable send_to : ℕ → Bytes → Message → World → World
  unfolding nick send_raw get_channel irc_nick_get Channels.message private_message
  send_to c target m w =
      let ch = get_channel (drop 1 target) w in
      let dest = irc_nick_get target w in
      if starts_with b'#' target
      then (if is_null ch
          then no_such_nick c target w
          else Channels.message env ch (record m { target = to_channel ch }) w)
      else if is_null dest
      then no_such_nick c target w
      else private_message env (w.connection_at c).account (record m { target = to_account dest }) w

  unfoldable pub handle_privmsg : ℕ → TagMap → List Bytes → World → World
  unfolding reply_num send_to
  handle_privmsg c tags (target ∷ text ∷ rest) w =
      send_to c target
        (new_message c text (Common.join (codes " ") (target ∷ text ∷ rest)) tags false w) w
  handle_privmsg c tags _ w = reply_num env c 461 (codes "PRIVMSG :Not enough parameters") w

  unfoldable pub handle_tagmsg : ℕ → TagMap → List Bytes → World → World
  unfolding reply_num send_to
  handle_tagmsg c tags [] w = reply_num env c 461 (codes "TAGMSG :Not enough parameters") w
  handle_tagmsg c tags (target ∷ rest) w =
      send_to c target (new_message c [] (Common.join (codes " ") (target ∷ rest)) tags true w) w

  abbrev rename_failed : ℕ → Bytes → Bytes → Bytes → Bytes → World → World
  rename_failed c code from to text w =
      send_data c
        (Common.join (codes " ") (
          (codes ":" ++ prefix c w)
          ∷ (codes "FAIL RENAME " ++ code)
          ∷ (codes "#" ++ from)
          ∷ (codes "#" ++ to)
          ∷ (codes ":" ++ (text ++ crlf))
          ∷ []))
        w

  unfoldable pub handle_rename : ℕ → List Bytes → World → World
  unfolding get_channel prefix rename
  handle_rename c (old ∷ new ∷ rest) w =
      let from = remove_hash old in
      let to = remove_hash new in
      let ch = get_channel from w in
      if is_null ch
      then rename_failed c (codes "CANNOT_RENAME") from to
          (codes "Channel to rename does not exist") w
      else if is_null (get_channel to w)
      then (rename env
          (record {
            channel = ch;
            account = (w.connection_at c).account;
            old_name = from;
            new_name = to;
            message = first_or_empty rest;
          })
          w).1
      else rename_failed c (codes "CHANNEL_NAME_IN_USE") from to (codes "Channel already exists") w
  handle_rename c _ w = w
