-- ===== src/Modes/User.antt =====
-- irc/modes.h and irc/modes.cpp, the user modes.
use chatripper.Common.{
  ℕ, ◌<◌, ◌≡◌, refl, sym, ap, ◌∙◌, ◌↔◌, true, nat_eqb, nat_eqb_iff, ltb, arith, if◌then◌else◌, some,
  List, [], ◌∷◌, Map, find, insert, Key, nat_key,
}
use chatripper.Bitflags.{FlagEnum}

pub data UserMode : Type 0 where
  invisible cloak block_pm_from_unregistered beep_boop_bot deaf registered caller_id hide_channels
        block_ctcp secure irc_operator local_operator wallops server_notices protected service_bot :
      UserMode

abbrev pub user_mode_shift : UserMode → ℕ
user_mode_shift invisible = 0
user_mode_shift cloak = 1
user_mode_shift block_pm_from_unregistered = 2
user_mode_shift beep_boop_bot = 3
user_mode_shift deaf = 4
user_mode_shift registered = 5
user_mode_shift caller_id = 6
user_mode_shift hide_channels = 7
user_mode_shift block_ctcp = 8
user_mode_shift secure = 9
user_mode_shift irc_operator = 10
user_mode_shift local_operator = 11
user_mode_shift wallops = 12
user_mode_shift server_notices = 13
user_mode_shift protected = 14
user_mode_shift service_bot = 15

pub user_mode_shift-lt : (e : UserMode) → user_mode_shift e < 32
user_mode_shift-lt invisible = omega arith
user_mode_shift-lt _ = omega arith

abbrev user_mode_at : ℕ → UserMode
user_mode_at n =
    if nat_eqb n 0
    then invisible
    else if nat_eqb n 1
    then cloak
    else if nat_eqb n 2
    then block_pm_from_unregistered
    else if nat_eqb n 3
    then beep_boop_bot
    else if nat_eqb n 4
    then deaf
    else if nat_eqb n 5
    then registered
    else if nat_eqb n 6
    then caller_id
    else if nat_eqb n 7
    then hide_channels
    else if nat_eqb n 8
    then block_ctcp
    else if nat_eqb n 9
    then secure
    else if nat_eqb n 10
    then irc_operator
    else if nat_eqb n 11
    then local_operator
    else if nat_eqb n 12
    then wallops
    else if nat_eqb n 13
    then server_notices
    else if nat_eqb n 14
    then protected
    else service_bot

user_mode_at-shift : (e : UserMode) → user_mode_at (user_mode_shift e) ≡ e
user_mode_at-shift invisible = refl
user_mode_at-shift _ = refl

pub user_mode_shift_injective : (a b : UserMode) → user_mode_shift a ≡ user_mode_shift b → a ≡ b
user_mode_shift_injective a b h =
    sym (user_mode_at-shift a) ∙ (ap user_mode_at h ∙ user_mode_at-shift b)

instance abbrev pub user_mode_flags : FlagEnum UserMode
user_mode_flags = record {
  shift = user_mode_shift;
  shift_lt = user_mode_shift-lt;
  shift_injective = user_mode_shift_injective;
}

pub user_mode_beq_iff :
    (a b : UserMode) → (nat_eqb (user_mode_shift a) (user_mode_shift b) ≡ true) ↔ (a ≡ b)
user_mode_beq_iff a b = (
  (λ h. user_mode_shift_injective a b ((nat_eqb_iff _ _).0 h)),
  (λ h. (nat_eqb_iff _ _).1 (ap user_mode_shift h)),
)

-- In a `QMap` the modes stand in the order of their values.
instance abbrev pub user_mode_key : Key UserMode
user_mode_key = record {
  beq = λ a b. nat_eqb (user_mode_shift a) (user_mode_shift b);
  beq_iff = user_mode_beq_iff;
  before = λ a b. ltb (user_mode_shift a) (user_mode_shift b);
}

-- `rawModes`, less the descriptions.
abbrev raw_user_modes : List (UserMode × ℕ)
raw_user_modes =
    (invisible, b'i')
    ∷ (cloak, b'x')
    ∷ (block_pm_from_unregistered, b'R')
    ∷ (beep_boop_bot, b'b')
    ∷ (deaf, b'd')
    ∷ (registered, b'r')
    ∷ (caller_id, b'g')
    ∷ (hide_channels, b'p')
    ∷ (block_ctcp, b'c')
    ∷ (secure, b'Z')
    ∷ (irc_operator, b'o')
    ∷ (local_operator, b'O')
    ∷ (wallops, b'w')
    ∷ (server_notices, b's')
    ∷ (protected, b'q')
    ∷ (service_bot, b'k')
    ∷ []

-- The loop that fills both tables.
fill_user_modes :
    List (UserMode × ℕ) → Map UserMode ℕ × Map ℕ UserMode → Map UserMode ℕ × Map ℕ UserMode
fill_user_modes [] tables = tables
fill_user_modes ((mode, letter) ∷ rest) (by_mode, by_letter) =
    fill_user_modes rest (insert mode letter by_mode, insert letter mode by_letter)

unfoldable pub user_modes_lookup : Map UserMode ℕ
unfolding fill_user_modes insert
user_modes_lookup = (fill_user_modes raw_user_modes ([], [])).0

unfoldable pub user_modes_lookup_letter : Map ℕ UserMode
unfolding fill_user_modes insert
user_modes_lookup_letter = (fill_user_modes raw_user_modes ([], [])).1

-- The two tables are inverse to each other: each mode has a letter, which stands for that mode
-- alone.
pub user_mode_letters :
    (m : UserMode)
    → (l : ℕ) × (find m user_modes_lookup ≡ some l) × (find l user_modes_lookup_letter ≡ some m)
unfolding user_modes_lookup user_modes_lookup_letter find
user_mode_letters invisible = (b'i', refl, refl)
user_mode_letters cloak = (b'x', refl, refl)
user_mode_letters block_pm_from_unregistered = (b'R', refl, refl)
user_mode_letters beep_boop_bot = (b'b', refl, refl)
user_mode_letters deaf = (b'd', refl, refl)
user_mode_letters registered = (b'r', refl, refl)
user_mode_letters caller_id = (b'g', refl, refl)
user_mode_letters hide_channels = (b'p', refl, refl)
user_mode_letters block_ctcp = (b'c', refl, refl)
user_mode_letters secure = (b'Z', refl, refl)
user_mode_letters irc_operator = (b'o', refl, refl)
user_mode_letters local_operator = (b'O', refl, refl)
user_mode_letters wallops = (b'w', refl, refl)
user_mode_letters server_notices = (b's', refl, refl)
user_mode_letters protected = (b'q', refl, refl)
user_mode_letters service_bot = (b'k', refl, refl)
