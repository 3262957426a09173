-- ===== src/Bitflags.antt =====
-- lib/bitflags.h: `Flags<E>`, a bitmask over an enum class whose enumerators are `1 << k`.
-- The underlying type of every such enum in the program is `int`: 32 bits.
pub mod Laws
use Prim.Native.Nat.{bit_and, bit_or}
use chatripper.Common.{ℕ, ◌-◌, ◌^◌, ◌<◌, ◌≡◌, Bool, not, nat_eqb, List, [], ◌∷◌}

-- An enum class: the shift of each enumerator. Two enumerators with one shift are one.
pub record FlagEnum (E : Type 0) : Type 0 where
  pub shift : E → ℕ
  pub shift_lt : (e : E) → shift e < 32
  pub shift_injective : (a b : E) → shift a ≡ shift b → a ≡ b

pub record Flags (E : Type 0) : Type 0 where
  pub bits : ℕ

module _ {E : Type 0} ⦃en : FlagEnum E⦄ where
  -- `static_cast<T>(e)`
  unfoldable pub value : E → ℕ
  value e = 2 ^ en.shift e

  -- `bits |= static_cast<T>(e)`
  unfoldable pub set : E → Flags E → Flags E
  unfolding value
  set e f = record { bits = bit_or f.bits (value e) }

  -- `bits &= ~static_cast<T>(e)`
  unfoldable pub clear : E → Flags E → Flags E
  unfolding value
  clear e f = record { bits = bit_and f.bits (2 ^ 32 - 1 - value e) }

  -- `set(e, es...)` goes through its arguments from the left.
  unfoldable pub set_each : List E → Flags E → Flags E
  unfolding set
  set_each [] f = f
  set_each (e ∷ es) f = set_each es (set e f)

  -- `clear(e, es...)`
  unfoldable clear_each : List E → Flags E → Flags E
  unfolding clear
  clear_each [] f = f
  clear_each (e ∷ es) f = clear_each es (clear e f)

  unfoldable pub has : E → Flags E → Bool
  unfolding value
  has e f = not (nat_eqb (bit_and f.bits (value e)) 0)

module _ {E : Type 0} where
  unfoldable pub empty : Flags E → Bool
  empty f = nat_eqb f.bits 0

  unfoldable equal : Flags E → Flags E → Bool
  equal f g = nat_eqb f.bits g.bits

  abbrev pub no_flags : Flags E
  no_flags = record { bits = 0 }
