-- ===== src/Bitflags/Laws.antt =====
-- `set`, `clear` and `has` behave as insertion, removal and membership of a set of enumerators.
use chatripper.Common.{◌-◌, ◌^◌, ◌≡◌, Bool, false, ◌||◌, nat_eqb, arith, if◌then◌else◌}
use chatripper.Common.Bits.{
  bit, bit-bit_or, bit-bit_and, bit-lt, bit-pow, bit_complement, bit_and-pow,
}
use native.Mathlib.Nat.{one-le-pow}
use chatripper.Bitflags.{FlagEnum, Flags, set, clear, has}

module _ {E : Type 0} ⦃en : FlagEnum E⦄ where
  -- the enumerator's bit
  abbrev pub same : E → E → Bool
  same a b = nat_eqb (en.shift a) (en.shift b)

  has-bit : (e : E) (f : Flags E) → has e f ≡ nat_eqb (bit (en.shift e) f.bits) 1
  unfolding has
  has-bit e f = ground (
    arith,
    bit_and-pow (en.shift e) f.bits,
    bit-lt (en.shift e) f.bits,
    one-le-pow (en.shift e) 2,
  )

  -- After `set` a flag is on exactly if it is the one set or was on.
  pub has-set : (e d : E) (f : Flags E) → has d (set e f) ≡ (same e d || has d f)
  unfolding set
  has-set e d f = ground (
    arith,
    has-bit d (set e f),
    has-bit d f,
    bit-bit_or (en.shift d) f.bits (2 ^ en.shift e),
    bit-pow (en.shift d) (en.shift e),
    bit-lt (en.shift d) f.bits,
  )

  -- After `clear` a flag is on exactly if it is not the one cleared and was on.
  pub has-clear :
      (e d : E) (f : Flags E) → has d (clear e f) ≡ (if same e d then false else has d f)
  unfolding clear
  has-clear e d f = ground (
    arith,
    has-bit d (clear e f),
    has-bit d f,
    bit-bit_and (en.shift d) f.bits (2 ^ 32 - 1 - 2 ^ en.shift e),
    bit_complement (en.shift d) 32 (en.shift e) (en.shift_lt d) (en.shift_lt e),
    bit-lt (en.shift d) f.bits,
  )
