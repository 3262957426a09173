-- ===== src/Irc/Metadata.antt =====
-- irc/client_connection.cpp, METADATA: `handleMETADATA`, and the answers of `metadata`.
pub mod Values
pub mod Answers
pub mod Owners
use chatripper.Common.{
  ℕ, Bool, true, false, not, ◌&&◌, ◌||◌, nat_eqb, Option, none, some, List, [], ◌∷◌, ◌++◌, map,
  Bytes, codes, is_empty, drop, starts_with, if◌then◌else◌, Map, find, bytes_key, ◌==◌, join,
}
use chatripper.Bitflags
use chatripper.Caps
use chatripper.Caps.{capability_flags}
use chatripper.State.{World, Variant, is_null, send_data}
use chatripper.Env.{Env}
use chatripper.Core.Caches.{get_channel, irc_nick_get}
use chatripper.Core.Metadata.{MetadataEvent}
use chatripper.Core.Metadata.Objects.{handle_account, handle_channel}
use chatripper.Irc.Reply.{account_nick, nick, send_raw, reply_num, crlf}

-- `key.startsWith("__")`
unfoldable pub is_internal : Bytes → Bool
is_internal [] = false
is_internal (a ∷ key) = starts_with b'_' (a ∷ []) && starts_with b'_' key

abbrev pub keys : Map Bytes Variant → List Bytes
keys [] = []
keys ((k, v) ∷ m) = k ∷ keys m

-- `msg.join(" ")`
abbrev pub words : List Bytes → Bytes
words = join (32 ∷ [])

unfoldable pub new_event : ℕ → Bytes → List Bytes → MetadataEvent
new_event account subcmd args = record {
  account = account;
  dest = 0;
  channel = 0;
  subcmd = subcmd;
  args = args;
  metadata = [];
  error_code = [];
  error_target = [];
  error_key = [];
  subscriptions = [];
}

module _ (env : Env) where
  abbrev pub server_prefix : Bytes
  server_prefix = codes ":" ++ env.server_name

  -- `targetName`
  unfoldable pub target_name : ℕ → MetadataEvent → World → Bytes
  unfolding account_nick
  target_name c ev w =
      if not (is_null ev.dest)
      then (if nat_eqb ev.account (w.connection_at c).account
          then codes "*"
          else account_nick ev.dest w)
      else if not (is_null ev.channel)
      then codes "#" ++ (w.channel_at ev.channel).name
      else codes "*"

  -- `toString().toUtf8()`
  abbrev value_text : Variant → Bytes
  value_text none = []
  value_text (some v) = env.text v

  -- RPL_KEYNOTSET or RPL_KEYVALUE, behind the batch tag or the server's prefix.
  unfoldable pub key_line : Bytes → Bytes → Bytes → Map Bytes Variant → Bytes → Bytes
  key_line lead own target values key = elim (find (env.text key) values) [
    | none ↦ words (lead ∷ codes "766" ∷ own ∷ target ∷ key ∷ (codes ":key not set" ++ crlf) ∷ [])
    | some v ↦ words (
        lead
        ∷ codes "761"
        ∷ own
        ∷ target
        ∷ key
        ∷ codes "*"
        ∷ (codes ":" ++ (value_text v ++ crlf))
        ∷ [])
  ]

  -- The loops over `keysToSend`.
  unfoldable pub send_keys : ℕ → Bytes → Bytes → MetadataEvent → List Bytes → World → World
  unfolding is_internal key_line nick
  send_keys c lead target ev [] w = w
  send_keys c lead target ev (key ∷ rest) w = send_keys c lead target ev rest (
      if is_internal key
      then w
      else send_data c (key_line lead (nick c w) target ev.metadata key) w)

  unfoldable pub send_batch : ℕ → Bytes → MetadataEvent → List Bytes → World → World
  unfolding send_keys
  send_batch c target ev to_send w =
      let ref = env.batch_ref w in
      let sent = send_keys c (codes "@batch=" ++ ref) target ev to_send (
        send_data c
          (words (server_prefix ∷ (codes "BATCH +" ++ (ref ++ (codes " metadata" ++ crlf))) ∷ []))
          w) in
      send_data c (words (server_prefix ∷ (codes "BATCH -" ++ (ref ++ crlf)) ∷ [])) sent

  unfoldable pub send_failure : ℕ → Bytes → MetadataEvent → World → World
  send_failure c target ev w =
      send_data c
        (words (
          server_prefix
          ∷ (codes "FAIL METADATA " ++ ev.error_code)
          ∷ target
          ∷ ev.error_key
          ∷ (codes ":You do not have permission to modify metadata" ++ crlf)
          ∷ []))
        w

  abbrev pub nicks : List ℕ → World → List Bytes
  nicks who w = map (λ a. account_nick a w) who

  -- RPL_METADATASUBOK
  unfoldable pub send_subscriptions : ℕ → Map Bytes (List ℕ) → World → World
  unfolding account_nick nick
  send_subscriptions c [] w = w
  send_subscriptions c ((key, who) ∷ rest) w = send_subscriptions c rest (
      if is_empty (nicks who w)
      then w
      else send_data c
          (words (server_prefix ∷ codes "770" ∷ nick c w ∷ key ∷ words (nicks who w) ∷ crlf ∷ []))
          w)

  -- The lines about keys and values.
  unfoldable pub send_values : ℕ → Bytes → MetadataEvent → World → World
  unfolding send_batch send_keys
  send_values c target ev w =
      let cmd = env.upper (env.text ev.subcmd) in
      if cmd == codes "GET"
      then send_batch c target ev ev.args w
      else if cmd == codes "LIST" || cmd == codes "SYNC"
      then send_batch c target ev (keys ev.metadata) w
      else if cmd == codes "SET" || cmd == codes "CLEAR"
      then send_keys c server_prefix target ev (keys ev.metadata) w
      else w

  -- `metadata`
  unfoldable pub metadata : ℕ → MetadataEvent → World → World
  unfolding target_name send_failure send_values send_subscriptions
  metadata c ev w =
      let target = target_name c ev w in
      if not (is_empty ev.error_code)
      then send_failure c target ev w
      else send_subscriptions c ev.subscriptions (send_values c target ev w)

  abbrev no_such : ℕ → Bytes → World → World
  no_such c target w =
      send_raw env c
        (codes "401 " ++ (nick c w ++ (codes " " ++ (target ++ codes " :No such nick/channel")))) w

  -- The branches of `handleMETADATA`: whose metadata it is.
  unfoldable pub metadata_of_channel : ℕ → Bytes → MetadataEvent → World → World
  unfolding send_raw nick get_channel handle_channel metadata
  metadata_of_channel c target ev w =
      let ch = get_channel (drop 1 target) w in
      if is_null ch
      then no_such c target w
      else (let (after, v) = handle_channel env ch (record ev { channel = ch }) w in
          metadata c after v)

  unfoldable pub metadata_of_account : ℕ → ℕ → MetadataEvent → World → World
  unfolding handle_account metadata
  metadata_of_account c a ev w =
      let (after, v) = handle_account env a (record ev { dest = a }) w in metadata c after v

  unfoldable pub metadata_of_nick : ℕ → Bytes → MetadataEvent → World → World
  unfolding send_raw nick irc_nick_get metadata_of_account
  metadata_of_nick c target ev w =
      let a = irc_nick_get target w in
      if is_null a then no_such c target w else metadata_of_account c a ev w

  -- `handleMETADATA`
  unfoldable pub handle_metadata : ℕ → List Bytes → World → World
  unfolding reply_num metadata_of_channel metadata_of_account metadata_of_nick new_event
      account_nick
  handle_metadata c (target ∷ subcmd ∷ args) w =
      let account = (w.connection_at c).account in
      let ev = new_event account subcmd args in
      if not (Bitflags.has Caps.metadata (w.connection_at c).capabilities)
      then w
      else if starts_with b'#' target
      then metadata_of_channel c target ev w
      else if target == codes "*" || target == account_nick account w
      then metadata_of_account c account ev w
      else metadata_of_nick c target ev w
  handle_metadata c _ w = reply_num env c 461 (codes "METADATA :Not enough parameters") w
