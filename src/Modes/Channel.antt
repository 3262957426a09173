-- ===== src/Modes/Channel.antt =====
-- irc/modes.h and irc/modes.cpp, the channel modes.
use chatripper.Common.{
  ℕ, ◌<◌, ◌≡◌, refl, sym, ap, ◌∙◌, ◌↔◌, true, nat_eqb, nat_eqb_iff, ltb, arith, if◌then◌else◌, some,
  List, [], ◌∷◌, Map, find, insert, Key, nat_key,
}
use chatripper.Bitflags.{FlagEnum}

pub data ChannelMode : Type 0 where
  invite_only moderated no_outside_msgs quiet secret topic_protected ban key limit : ChannelMode

abbrev channel_mode_shift : ChannelMode → ℕ
channel_mode_shift invite_only = 0
channel_mode_shift moderated = 1
channel_mode_shift no_outside_msgs = 2
channel_mode_shift quiet = 3
channel_mode_shift secret = 4
channel_mode_shift topic_protected = 5
channel_mode_shift ban = 6
channel_mode_shift key = 7
channel_mode_shift limit = 8

pub channel_mode_shift-lt : (e : ChannelMode) → channel_mode_shift e < 32
channel_mode_shift-lt invite_only = omega arith
channel_mode_shift-lt _ = omega arith

abbrev channel_mode_at : ℕ → ChannelMode
channel_mode_at n =
    if nat_eqb n 0
    then invite_only
    else if nat_eqb n 1
    then moderated
    else if nat_eqb n 2
    then no_outside_msgs
    else if nat_eqb n 3
    then quiet
    else if nat_eqb n 4
    then secret
    else if nat_eqb n 5
    then topic_protected
    else if nat_eqb n 6
    then ban
    else if nat_eqb n 7
    then key
    else limit

channel_mode_at-shift : (e : ChannelMode) → channel_mode_at (channel_mode_shift e) ≡ e
channel_mode_at-shift invite_only = refl
channel_mode_at-shift _ = refl

pub channel_mode_shift_injective :
    (a b : ChannelMode) → channel_mode_shift a ≡ channel_mode_shift b → a ≡ b
channel_mode_shift_injective a b h =
    sym (channel_mode_at-shift a) ∙ (ap channel_mode_at h ∙ channel_mode_at-shift b)

instance abbrev pub channel_mode_flags : FlagEnum ChannelMode
channel_mode_flags = record {
  shift = channel_mode_shift;
  shift_lt = channel_mode_shift-lt;
  shift_injective = channel_mode_shift_injective;
}

pub channel_mode_beq_iff :
    (a b : ChannelMode) → (nat_eqb (channel_mode_shift a) (channel_mode_shift b) ≡ true) ↔ (a ≡ b)
channel_mode_beq_iff a b = (
  (λ h. channel_mode_shift_injective a b ((nat_eqb_iff _ _).0 h)),
  (λ h. (nat_eqb_iff _ _).1 (ap channel_mode_shift h)),
)

-- In a `QMap` the modes stand in the order of their values.
instance abbrev pub channel_mode_key : Key ChannelMode
channel_mode_key = record {
  beq = λ a b. nat_eqb (channel_mode_shift a) (channel_mode_shift b);
  beq_iff = channel_mode_beq_iff;
  before = λ a b. ltb (channel_mode_shift a) (channel_mode_shift b);
}

-- `rawModes`, less the descriptions.
abbrev raw_channel_modes : List (ChannelMode × ℕ)
raw_channel_modes =
    (invite_only, b'i')
    ∷ (moderated, b'm')
    ∷ (no_outside_msgs, b'n')
    ∷ (quiet, b'q')
    ∷ (secret, b's')
    ∷ (topic_protected, b't')
    ∷ (ban, b'b')
    ∷ (key, b'k')
    ∷ (limit, b'l')
    ∷ []

-- The loop that fills both tables.
fill_channel_modes :
    List (ChannelMode × ℕ)
    → Map ChannelMode ℕ × Map ℕ ChannelMode
    → Map ChannelMode ℕ × Map ℕ ChannelMode
fill_channel_modes [] tables = tables
fill_channel_modes ((mode, letter) ∷ rest) (by_mode, by_letter) =
    fill_channel_modes rest (insert mode letter by_mode, insert letter mode by_letter)

unfoldable pub channel_modes_lookup : Map ChannelMode ℕ
unfolding fill_channel_modes insert
channel_modes_lookup = (fill_channel_modes raw_channel_modes ([], [])).0

unfoldable pub channel_modes_lookup_letter : Map ℕ ChannelMode
unfolding fill_channel_modes insert
channel_modes_lookup_letter = (fill_channel_modes raw_channel_modes ([], [])).1

-- The two tables are inverse to each other: each mode has a letter, which stands for that mode
-- alone.
channel_mode_letters :
    (m : ChannelMode)
    → (l : ℕ) × (find m channel_modes_lookup ≡ some l)
      × (find l channel_modes_lookup_letter ≡ some m)
unfolding channel_modes_lookup channel_modes_lookup_letter find
channel_mode_letters invite_only = (b'i', refl, refl)
channel_mode_letters moderated = (b'm', refl, refl)
channel_mode_letters no_outside_msgs = (b'n', refl, refl)
channel_mode_letters quiet = (b'q', refl, refl)
channel_mode_letters secret = (b's', refl, refl)
channel_mode_letters topic_protected = (b't', refl, refl)
channel_mode_letters ban = (b'b', refl, refl)
channel_mode_letters key = (b'k', refl, refl)
channel_mode_letters limit = (b'l', refl, refl)
