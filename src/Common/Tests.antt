-- ===== src/Common/Tests.antt =====
-- Boolean tests on the native numbers, the conditional, and equality as an interface.
use Prim.Native.Nat.{ℕ, ◌≤◌, ◌<◌, compare, Ordering}
use mathlib.Core.Path.{◌≡◌, refl}
use mathlib.Core.Logic.{◌↔◌, ◌⊎◌, inl, inr}
use mathlib.Core.Bool.{Bool, true, false, ◌&&◌, ◌||◌}
use mathlib.Core.Option.{Option, none, some}
use mathlib.Core.List.{List, [], ◌∷◌}
use native.Mathlib.Omega.{arith}

abbrev pub ltb : ℕ → ℕ → Bool
ltb a b = elim (compare a b) [ Ordering.lt ↦ true | _ ↦ false ]

abbrev pub leb : ℕ → ℕ → Bool
leb a b = elim (compare a b) [ Ordering.gt ↦ false | _ ↦ true ]

abbrev pub nat_eqb : ℕ → ℕ → Bool
nat_eqb a b = elim (compare a b) [ Ordering.eq ↦ true | _ ↦ false ]

infix 1 if◌then◌else◌
abbrev pub if◌then◌else◌ {ℓ} : {A : Type ℓ} → Bool → A → A → A
if true then x else y = x
if false then x else y = y

-- What holds of both branches holds of the conditional.
pub if_both {ℓ κ} :
    {A : Type ℓ} (Holds : A → Type κ) (test : Bool) {x y : A}
    → Holds x
    → Holds y
    → Holds (if test then x else y)
if_both Holds false left right = right
if_both Holds true left right = left

pub ltb→lt : (a b : ℕ) → ltb a b ≡ true → a < b
ltb→lt a b h = ground arith

pub ltb_false→le : (a b : ℕ) → ltb a b ≡ false → b ≤ a
ltb_false→le a b h = ground arith

pub lt→ltb : (a b : ℕ) → a < b → ltb a b ≡ true
lt→ltb a b h = ground arith

leb→le : (a b : ℕ) → leb a b ≡ true → a ≤ b
leb→le a b h = ground arith

pub nat_eqb_iff : (a b : ℕ) → (nat_eqb a b ≡ true) ↔ (a ≡ b)
nat_eqb_iff a b = ground arith

-- To split on a computed value and keep the equation.
pub Bool-cases : (b : Bool) → (b ≡ true) ⊎ (b ≡ false)
Bool-cases true = inl refl
Bool-cases false = inr refl

pub Option-cases {ℓ} : {A : Type ℓ} (o : Option A) → (o ≡ none) ⊎ ((a : A) × (o ≡ some a))
Option-cases none = inl refl
Option-cases (some a) = inr (a, refl)

-- Equality and order of keys. The order is the one in which a sorted map lists its keys.
pub record Key {ℓ} (A : Type ℓ) : Type ℓ where
  pub beq : A → A → Bool
  pub beq_iff : (a b : A) → (beq a b ≡ true) ↔ (a ≡ b)
  pub before : A → A → Bool

infix 50 ◌==◌
abbrev pub ◌==◌ {ℓ} : {A : Type ℓ} ⦃e : Key A⦄ → A → A → Bool
◌==◌ ⦃e⦄ = e.beq

instance abbrev pub nat_key : Key ℕ
nat_key = record { beq = nat_eqb; beq_iff = nat_eqb_iff; before = ltb }

-- `QByteArray` and `QString`: the codes of the text.
abbrev pub Bytes : Type 0
Bytes = List ℕ

unfoldable pub bytes_eqb : Bytes → Bytes → Bool
bytes_eqb [] [] = true
bytes_eqb [] (y ∷ ys) = false
bytes_eqb (x ∷ xs) [] = false
bytes_eqb (x ∷ xs) (y ∷ ys) = nat_eqb x y && bytes_eqb xs ys

unfoldable pub bytes_before : Bytes → Bytes → Bool
bytes_before xs [] = false
bytes_before [] (y ∷ ys) = true
bytes_before (x ∷ xs) (y ∷ ys) = ltb x y || (nat_eqb x y && bytes_before xs ys)

pub bytes_eqb_iff : (a b : Bytes) → (bytes_eqb a b ≡ true) ↔ (a ≡ b)
unfolding bytes_eqb
bytes_eqb_iff [] [] = ((λ _. refl), (λ _. refl))
bytes_eqb_iff [] (y ∷ ys) = ground arith
bytes_eqb_iff (x ∷ xs) [] = ground arith
bytes_eqb_iff (x ∷ xs) (y ∷ ys) = ground (arith, bytes_eqb_iff xs ys)

instance abbrev pub bytes_key : Key Bytes
bytes_key = record { beq = bytes_eqb; beq_iff = bytes_eqb_iff; before = bytes_before }

pub beq_self {ℓ} : {A : Type ℓ} ⦃e : Key A⦄ (a : A) → (a == a) ≡ true
beq_self ⦃e⦄ a = (e.beq_iff a a).1 refl
