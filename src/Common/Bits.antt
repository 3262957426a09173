-- ===== src/Common/Bits.antt =====
-- The bits of a number, and `&`, `|` and `^` bit by bit.
use Prim.Native.Nat.{min, max, digits, bitwise, bit_and, bit_or}
use Prim.Native.Nat.{bit_and-bitwise, bit_or-bitwise}
use Prim.Native.Nat.{ℕ, zero, suc, ◌+◌, ◌-◌, ◌*◌, ◌/◌, ◌%◌, ◌^◌, ◌≤◌, ◌<◌}
use native.Mathlib.Nat.{le_refl, pow-suc, one-le-pow}
use mathlib.Core.Path.{◌≡◌, refl, ap, ◌∙◌}
use native.Mathlib.Omega.{arith}
use chatripper.Common.Tests.{nat_eqb, if◌then◌else◌}

-- Bit `k` of `n`.
unfoldable pub bit : ℕ → ℕ → ℕ
bit zero n = n % 2
bit (suc k) n = bit k (n / 2)

-- `bitwise` recurses on fuel: more of it than the first number changes nothing.
module _ (tail : ℕ → ℕ) (join_bits : ℕ → ℕ → ℕ) where
  one_more :
      (fuel m n : ℕ)
      → m ≤ fuel
      → digits tail join_bits (suc fuel) m n ≡ digits tail join_bits fuel m n
  one_more zero zero n enough = refl
  one_more zero (suc m) n enough = elim enough [ ]
  one_more (suc fuel) zero n enough = refl
  one_more (suc fuel) (suc m) n enough =
      let smaller : suc m / 2 ≤ fuel = omega arith in rw (one_more fuel (suc m / 2) (n / 2) smaller)

  any_more :
      (extra large fuel m n : ℕ)
      → large ≡ extra + fuel
      → m ≤ fuel
      → digits tail join_bits large m n ≡ digits tail join_bits fuel m n
  any_more zero large fuel m n e enough =
      let same : large ≡ fuel = omega (arith, e) in ap (λ k. digits tail join_bits k m n) same
  any_more (suc extra) large fuel m n e enough =
      let next : large ≡ suc (extra + fuel) = omega (arith, e) in
      ap (λ k. digits tail join_bits k m n) next
      ∙ (one_more (extra + fuel) m n (omega arith)
          ∙ any_more extra (extra + fuel) fuel m n refl enough)

  lowest :
      (m n : ℕ)
      → bitwise tail join_bits (suc m) n
        ≡ bitwise tail join_bits (suc m / 2) (n / 2) * 2 + join_bits (suc m % 2) (n % 2)
  lowest m n =
      let half = suc m / 2 in
      omega (arith, any_more (m - half) m half half (n / 2) (omega arith) (le_refl _))

-- The lowest bit of `&` and of `|`, and the rest.
bit_and_step : (m n : ℕ) → bit_and m n ≡ min (m % 2) (n % 2) + 2 * bit_and (m / 2) (n / 2)
bit_and_step (suc m) n =
    let front : bit_and (suc m) n ≡ bit_and (suc m / 2) (n / 2) * 2 + min (suc m % 2) (n % 2) =
      simp bit_and-bitwise (lowest (λ y. 0) min m n) in
    omega (arith, front)
bit_and_step zero n = simp bit_and-bitwise (omega arith)

bit_or_step : (m n : ℕ) → bit_or m n ≡ max (m % 2) (n % 2) + 2 * bit_or (m / 2) (n / 2)
bit_or_step (suc m) n =
    let front : bit_or (suc m) n ≡ bit_or (suc m / 2) (n / 2) * 2 + max (suc m % 2) (n % 2) =
      simp bit_or-bitwise (lowest (λ y. y) max m n) in
    omega (arith, front)
bit_or_step zero n = simp bit_or-bitwise (omega arith)

pub bit-bit_or : (k a b : ℕ) → bit k (bit_or a b) ≡ max (bit k a) (bit k b)
unfolding bit
bit-bit_or zero a b = omega (arith, bit_or_step a b)
bit-bit_or (suc k) a b =
    let half : bit_or a b / 2 ≡ bit_or (a / 2) (b / 2) = omega (arith, bit_or_step a b) in
    rw half (bit-bit_or k (a / 2) (b / 2))

pub bit-bit_and : (k a b : ℕ) → bit k (bit_and a b) ≡ min (bit k a) (bit k b)
unfolding bit
bit-bit_and zero a b = omega (arith, bit_and_step a b)
bit-bit_and (suc k) a b =
    let half : bit_and a b / 2 ≡ bit_and (a / 2) (b / 2) = omega (arith, bit_and_step a b) in
    rw half (bit-bit_and k (a / 2) (b / 2))

pub bit-lt : (k n : ℕ) → bit k n < 2
unfolding bit
bit-lt zero n = omega arith
bit-lt (suc k) n = bit-lt k (n / 2)

bit-zero : (k : ℕ) → bit k 0 ≡ 0
unfolding bit
bit-zero zero = refl
bit-zero (suc k) = bit-zero k

pub bit-pow : (k i : ℕ) → bit k (2 ^ i) ≡ (if nat_eqb i k then 1 else 0)
unfolding bit
bit-pow zero zero = refl
bit-pow zero (suc i) = ground (arith, pow-suc 2 i)
bit-pow (suc k) zero = ground (arith, bit-zero k)
bit-pow (suc k) (suc i) =
    let half : 2 ^ suc i / 2 ≡ 2 ^ i = omega (arith, pow-suc 2 i) in
    rw half (ground (arith, bit-pow k i))

pow_lt : (i w : ℕ) → i < w → 2 ^ i < 2 ^ w
pow_lt i zero h = elim h [ ]
pow_lt zero (suc w) h = omega (arith, pow-suc 2 w, one-le-pow w 2)
pow_lt (suc i) (suc w) h = omega (arith, pow-suc 2 w, pow-suc 2 i, pow_lt i w (omega arith))

bit_ones : (k w : ℕ) → k < w → bit k (2 ^ w - 1) ≡ 1
unfolding bit
bit_ones k zero h = elim h [ ]
bit_ones zero (suc w) h = omega (arith, pow-suc 2 w, one-le-pow w 2)
bit_ones (suc k) (suc w) h =
    let half : (2 ^ suc w - 1) / 2 ≡ 2 ^ w - 1 = omega (arith, pow-suc 2 w, one-le-pow w 2) in
    rw half (bit_ones k w (omega arith))

-- `~(1 << i)` in `w` bits.
pub bit_complement :
    (k w i : ℕ) → k < w → i < w → bit k (2 ^ w - 1 - 2 ^ i) ≡ (if nat_eqb i k then 0 else 1)
unfolding bit
bit_complement k zero i h g = elim h [ ]
bit_complement zero (suc w) zero h g = omega (arith, pow-suc 2 w, one-le-pow w 2)
bit_complement zero (suc w) (suc i) h g =
    ground (arith, pow-suc 2 w, pow-suc 2 i, pow_lt i w (omega arith))
bit_complement (suc k) (suc w) zero h g =
    let half : (2 ^ suc w - 1 - 1) / 2 ≡ 2 ^ w - 1 = omega (arith, pow-suc 2 w, one-le-pow w 2) in
    rw half (ground (arith, bit_ones k w (omega arith)))
bit_complement (suc k) (suc w) (suc i) h g =
    let half : (2 ^ suc w - 1 - 2 ^ suc i) / 2 ≡ 2 ^ w - 1 - 2 ^ i =
      omega (arith, pow-suc 2 w, pow-suc 2 i, pow_lt i w (omega arith)) in
    rw half (ground (arith, bit_complement k w i (omega arith) (omega arith)))

bit_and-zero : (n a : ℕ) → a ≤ n → bit_and a 0 ≡ 0
bit_and-zero n zero h = refl
bit_and-zero zero (suc a) h = absurd (omega arith)
bit_and-zero (suc n) (suc a) h =
    omega (arith, bit_and_step (suc a) 0, bit_and-zero n (suc a / 2) (omega arith))

-- Masking by one bit.
pub bit_and-pow : (k a : ℕ) → bit_and a (2 ^ k) ≡ bit k a * 2 ^ k
unfolding bit
bit_and-pow zero a = omega (arith, bit_and_step a 1, bit_and-zero (a / 2) (a / 2) (le_refl _))
bit_and-pow (suc k) a =
    let half : 2 ^ suc k / 2 ≡ 2 ^ k = omega (arith, pow-suc 2 k) in
    let even : 2 ^ suc k % 2 ≡ 0 = omega (arith, pow-suc 2 k) in
    rw (bit_and_step a (2 ^ suc k), half, even, bit_and-pow k (a / 2), pow-suc 2 k) (omega arith)
