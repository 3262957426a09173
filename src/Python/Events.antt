-- ===== src/Python/Events.antt =====
-- core/qtypes.h: `QEnums::QIRCEvent` as an enum of bits.
use chatripper.Common.{ℕ, ◌<◌, ◌≡◌, refl, sym, ap, ◌∙◌, nat_eqb, arith, if◌then◌else◌}
use chatripper.Bitflags.{FlagEnum}
use chatripper.Env.{
  EventType, channel_join, channel_part, channel_msg, private_msg, tag_msg, channel_rename,
  nick_change, auth_sasl_plain, raw_msg, verify_msg_tags, peer_max_connections,
}

abbrev event_shift : EventType → ℕ
event_shift auth_sasl_plain = 0
event_shift channel_msg = 1
event_shift private_msg = 2
event_shift channel_join = 3
event_shift channel_part = 4
event_shift raw_msg = 5
event_shift peer_max_connections = 6
event_shift nick_change = 7
event_shift channel_rename = 8
event_shift tag_msg = 9
event_shift verify_msg_tags = 10

pub event_shift-lt : (e : EventType) → event_shift e < 32
event_shift-lt auth_sasl_plain = omega arith
event_shift-lt _ = omega arith

abbrev event_at : ℕ → EventType
event_at n =
    if nat_eqb n 0
    then auth_sasl_plain
    else if nat_eqb n 1
    then channel_msg
    else if nat_eqb n 2
    then private_msg
    else if nat_eqb n 3
    then channel_join
    else if nat_eqb n 4
    then channel_part
    else if nat_eqb n 5
    then raw_msg
    else if nat_eqb n 6
    then peer_max_connections
    else if nat_eqb n 7
    then nick_change
    else if nat_eqb n 8
    then channel_rename
    else if nat_eqb n 9
    then tag_msg
    else verify_msg_tags

event_at-shift : (e : EventType) → event_at (event_shift e) ≡ e
event_at-shift auth_sasl_plain = refl
event_at-shift _ = refl

pub event_shift_injective : (a b : EventType) → event_shift a ≡ event_shift b → a ≡ b
event_shift_injective a b h = sym (event_at-shift a) ∙ (ap event_at h ∙ event_at-shift b)

instance abbrev pub event_flags : FlagEnum EventType
event_flags = record {
  shift = event_shift;
  shift_lt = event_shift-lt;
  shift_injective = event_shift_injective;
}
