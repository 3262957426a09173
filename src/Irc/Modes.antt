-- ===== src/Irc/Modes.antt =====
-- irc/client_connection.cpp: `handleMODE` and `applyUserMode`.
pub mod Letters
use chatripper.Common.{
  ℕ, zero, suc, ◌+◌, ◌≡◌, Bool, true, false, not, ◌&&◌, ◌||◌, Option, none, some, List, [], ◌∷◌,
  ◌++◌, Bytes, codes, is_empty, starts_with, drop, get_elem?, nat_eqb, if◌then◌else◌, Map, find,
  nat_key, bytes_key, ◌==◌,
}
use chatripper.Common.Outcome.{Outcome, done, deadlock, fault, ◌>>=◌}
use chatripper.Bitflags
use chatripper.Bitflags.{Flags}
use chatripper.Modes.User.{UserMode, user_mode_flags, user_modes_lookup, user_modes_lookup_letter}
use chatripper.Modes.Channel.{
  ChannelMode, channel_mode_flags, channel_modes_lookup, channel_modes_lookup_letter, ban, key,
  limit,
}
use chatripper.State.{Channel, Connection, World, is_null, set_connection, set_channel}
use chatripper.Env.{Env}
use chatripper.Core.Caches.{get_channel}
use chatripper.Core.Channels.Mode.{set_mode}
use chatripper.Irc.Reply.{nick, send_raw, reply_num, number}

-- The letters of the modes that are set, in the order of the table.
unfoldable pub user_letters : Map UserMode ℕ → Flags UserMode → Bytes
user_letters [] f = []
user_letters ((mode, letter) ∷ rest) f =
    let others = user_letters rest f in if Bitflags.has mode f then letter ∷ others else others

unfoldable channel_letters : Map ChannelMode ℕ → Flags ChannelMode → Bytes
channel_letters [] f = []
channel_letters ((mode, letter) ∷ rest) f =
    let others = channel_letters rest f in if Bitflags.has mode f then letter ∷ others else others

-- `applyUserMode`
unfoldable pub apply_user_mode : UserMode → Bool → Flags UserMode → Flags UserMode
apply_user_mode mode adding f = if adding then Bitflags.set mode f else Bitflags.clear mode f

-- What a letter adds to the reply: itself, if it changed its mode.
abbrev changed : Bool → Bool → ℕ → Bytes
changed before after letter =
    if before then (if after then [] else letter ∷ []) else (if after then letter ∷ [] else [])

-- What the loop over the letters has come to: the modes, the letters that changed something, and
-- whether there was one that is no mode.
pub record UserChange : Type 0 where
  pub modes : Flags UserMode
  pub result : Bytes
  pub invalid : Bool

-- One round of the loop; the option is what the letter stands for.
unfoldable pub apply_user_letter : Bool → ℕ → UserChange → Option UserMode → UserChange
unfolding apply_user_mode
apply_user_letter adding letter s none = record s { invalid = true }
apply_user_letter adding letter s (some mode) =
    let after = apply_user_mode mode adding s.modes in
    record s {
      modes = after;
      result = s.result ++ changed (Bitflags.has mode s.modes) (Bitflags.has mode after) letter;
    }

unfoldable pub change_user_mode : Bool → ℕ → UserChange → UserChange
unfolding apply_user_letter
change_user_mode adding letter s =
    apply_user_letter adding letter s (find letter user_modes_lookup_letter)

unfoldable pub change_user_modes : Bool → Bytes → UserChange → UserChange
unfolding change_user_mode
change_user_modes adding [] s = s
change_user_modes adding (letter ∷ rest) s =
    change_user_modes adding rest (change_user_mode adding letter s)

pub record ChannelChange : Type 0 where
  pub channel : Channel
  pub params : List Bytes
  pub result : Bytes
  pub invalid : Bool

abbrev takes_argument : ChannelMode → Bool
takes_argument ban = true
takes_argument key = true
takes_argument limit = true
takes_argument mode = false

module _ (env : Env) where
  abbrev apply_letter : Bool → ℕ → ChannelMode → Bytes → ChannelChange → Outcome ChannelChange
  apply_letter adding letter mode arg s = set_mode env.to_int mode adding arg s.channel >>= λ out.
      done (record s {
        channel = out;
        result =
            s.result
            ++ changed (Bitflags.has mode s.channel.channel_modes)
                (Bitflags.has mode out.channel_modes) letter;
      })

  -- One round of the loop over the letters of a channel's modes.
  unfoldable change_channel_mode : Bool → ℕ → ChannelChange → Outcome ChannelChange
  unfolding set_mode
  change_channel_mode adding letter s = elim (find letter channel_modes_lookup_letter) [
    | none ↦ done (record s { invalid = true })
    | some mode ↦ elim (takes_argument mode) [
      | false ↦ apply_letter adding letter mode [] s
      | true ↦ elim (s.params) [
        | [] ↦ done (record s { invalid = true })
        | arg ∷ rest ↦ apply_letter adding letter mode arg (record s { params = rest })
      ]
    ]
  ]

  unfoldable change_channel_modes : Bool → Bytes → ChannelChange → Outcome ChannelChange
  unfolding change_channel_mode
  change_channel_modes adding [] s = done s
  change_channel_modes adding (letter ∷ rest) s =
      change_channel_mode adding letter s >>= λ next. change_channel_modes adding rest next

  -- MODE with a target alone.
  unfoldable query_user : ℕ → World → World
  unfolding user_letters nick send_raw
  query_user c w =
      let present = user_letters user_modes_lookup (w.connection_at c).user_modes in
      send_raw env c (codes "MODE " ++ (nick c w ++ (codes " :" ++ present))) w

  unfoldable pub mode_params : Channel → Bytes
  unfolding number
  mode_params channel =
      (if Bitflags.has key channel.channel_modes then codes " " ++ channel.key else [])
      ++ (if Bitflags.has limit channel.channel_modes
          then codes " " ++ number channel.limit
          else [])

  unfoldable query_channel : ℕ → Bytes → World → World
  unfolding get_channel channel_letters mode_params nick send_raw reply_num
  query_channel c target w =
      let ch = get_channel (drop 1 target) w in
      let channel = w.channel_at ch in
      let present = channel_letters channel_modes_lookup channel.channel_modes in
      let head = codes "324 " ++ (nick c w ++ (codes " #" ++ (channel.name ++ codes " :"))) in
      if is_null ch
      then reply_num env c 403 (target ++ codes " :No such channel") w
      else if is_empty present
      then send_raw env c head w
      else send_raw env c (head ++ (codes "+" ++ (present ++ mode_params channel))) w

  abbrev unknown_flag : ℕ → World → World
  unknown_flag c w = reply_num env c 501 (codes "Unknown MODE flag") w

  abbrev sign : Bool → Bytes
  sign adding = if adding then codes "+" else codes "-"

  -- `MODE <nick> <modes>`
  unfoldable pub change_user : ℕ → Bool → Bytes → World → World
  unfolding change_user_modes nick send_raw reply_num
  change_user c adding letters w =
      let conn = w.connection_at c in
      let s =
        change_user_modes adding letters
          (record { modes = conn.user_modes; result = []; invalid = false }) in
      let v = set_connection c (record conn { user_modes = s.modes }) w in
      if s.invalid
      then unknown_flag c v
      else if is_empty s.result
      then unknown_flag c v
      else send_raw env c (codes "MODE " ++ (nick c v ++ (codes " :" ++ (sign adding ++ s.result))))
          v

  -- `MODE #<channel> <modes> ...`
  unfoldable change_channel : ℕ → Bytes → Bool → Bytes → List Bytes → World → Outcome World
  unfolding get_channel change_channel_modes send_raw reply_num
  change_channel c target adding letters params w =
      let ch = get_channel (drop 1 target) w in
      if is_null ch
      then done (reply_num env c 403 (target ++ codes " :No such channel") w)
      else change_channel_modes adding letters
          (record { channel = w.channel_at ch; params = params; result = []; invalid = false })
        >>= λ s.
            let v = set_channel ch s.channel w in
            done (
              if s.invalid
              then unknown_flag c v
              else if is_empty s.result
              then v
              else send_raw env c
                  (codes "MODE " ++ (target ++ (codes " :" ++ (sign adding ++ s.result)))) v)

  -- `MODE #<channel> b`
  unfoldable query_bans : ℕ → Bytes → World → World
  unfolding get_channel nick send_raw reply_num
  query_bans c target w =
      let ch = get_channel (drop 1 target) w in
      if is_null ch
      then reply_num env c 403 (target ++ codes " :No such channel") w
      else send_raw env c
          (codes "368 "
            ++ (nick c w
                ++ (codes " #" ++ ((w.channel_at ch).name ++ codes " :End of Channel Ban List"))))
          w

  abbrev change_modes : ℕ → Bytes → Bool → Bytes → List Bytes → World → Outcome World
  change_modes c target adding letters params w =
      if target == nick c w
      then done (change_user c adding letters w)
      else if starts_with b'#' target
      then change_channel c target adding letters params w
      else done (unknown_flag c w)

  -- The sign in front of the requested modes.
  abbrev request_modes : ℕ → Bytes → Bytes → List Bytes → World → Outcome World
  request_modes c target [] params w = done (unknown_flag c w)
  request_modes c target (s ∷ letters) params w =
      if nat_eqb s b'+'
      then change_modes c target true letters params w
      else if nat_eqb s b'-'
      then change_modes c target false letters params w
      else done (unknown_flag c w)

  unfoldable pub handle_mode : ℕ → List Bytes → World → Outcome World
  unfolding nick query_user query_channel query_bans change_user change_channel reply_num
  handle_mode c [] w = done w
  handle_mode c (target ∷ []) w = done (
      if target == nick c w
      then query_user c w
      else if starts_with b'#' target
      then query_channel c target w
      else unknown_flag c w)
  handle_mode c (target ∷ modes ∷ params) w =
      if starts_with b'#' target && modes == codes "b"
      then done (query_bans c target w)
      else request_modes c target modes params w
