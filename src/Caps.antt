-- ===== src/Caps.antt =====
-- irc/caps.h: the protocol capabilities that a client can ask for.
use chatripper.Common.{ℕ, ◌<◌, ◌≡◌, refl, sym, ap, ◌∙◌, nat_eqb, arith, if◌then◌else◌}
use chatripper.Bitflags.{FlagEnum}

pub data ProtocolCapability : Type 0 where
  multi_prefix message_tags extended_join chghost account_tag account_notify echo_message
        znc_self_message fish channel_rename metadata filehost extended_isupport :
      ProtocolCapability

abbrev capability_shift : ProtocolCapability → ℕ
capability_shift multi_prefix = 0
capability_shift message_tags = 1
capability_shift extended_join = 2
capability_shift chghost = 3
capability_shift account_tag = 4
capability_shift account_notify = 5
capability_shift echo_message = 6
capability_shift znc_self_message = 7
capability_shift fish = 8
capability_shift channel_rename = 9
capability_shift metadata = 10
capability_shift filehost = 11
capability_shift extended_isupport = 12

pub shift_lt : (e : ProtocolCapability) → capability_shift e < 32
shift_lt multi_prefix = omega arith
shift_lt _ = omega arith

abbrev at_shift : ℕ → ProtocolCapability
at_shift n =
    if nat_eqb n 0
    then multi_prefix
    else if nat_eqb n 1
    then message_tags
    else if nat_eqb n 2
    then extended_join
    else if nat_eqb n 3
    then chghost
    else if nat_eqb n 4
    then account_tag
    else if nat_eqb n 5
    then account_notify
    else if nat_eqb n 6
    then echo_message
    else if nat_eqb n 7
    then znc_self_message
    else if nat_eqb n 8
    then fish
    else if nat_eqb n 9
    then channel_rename
    else if nat_eqb n 10
    then metadata
    else if nat_eqb n 11
    then filehost
    else extended_isupport

at_shift-shift : (e : ProtocolCapability) → at_shift (capability_shift e) ≡ e
at_shift-shift multi_prefix = refl
at_shift-shift _ = refl

pub shift_injective : (a b : ProtocolCapability) → capability_shift a ≡ capability_shift b → a ≡ b
shift_injective a b h = sym (at_shift-shift a) ∙ (ap at_shift h ∙ at_shift-shift b)

instance abbrev pub capability_flags : FlagEnum ProtocolCapability
capability_flags = record {
  shift = capability_shift;
  shift_lt = shift_lt;
  shift_injective = shift_injective;
}
