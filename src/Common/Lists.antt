-- ===== src/Common/Lists.antt =====
-- Lists measured and cut by native numbers, under the library's names, and the operations of
-- `QByteArray` and `QList` that the program calls.
use Prim.Native.Nat.{ℕ, zero, suc, ◌+◌, ◌-◌, ◌≤◌, min}
use Prim.Native.Char.{code}
use Prim.Native.String.{String}
use mathlib.Core.Path.{◌≡◌, refl, ap, ◌∙◌}
use mathlib.Core.Logic.{◌≢◌}
use mathlib.Core.Bool.{Bool, true, false, ◌||◌, ◌&&◌}
use mathlib.Core.List.{List, [], ◌∷◌, ◌++◌}
use mathlib.Core.Option.{Option, none, some}
use native.Mathlib.Omega.{arith}
use native.Mathlib.Numerals.{add-one, towards_suc}
use chatripper.Common.Tests.{Bytes, nat_eqb, leb, if◌then◌else◌, Key, ◌==◌}

module _ {ℓ} {A : Type ℓ} where
  abbrev pub length : List A → ℕ
  length [] = 0
  length (x ∷ xs) = suc (length xs)

  abbrev pub get_elem? : List A → ℕ → Option A
  get_elem? [] i = none
  get_elem? (x ∷ xs) zero = some x
  get_elem? (x ∷ xs) (suc i) = get_elem? xs i

  abbrev pub take : ℕ → List A → List A
  take zero xs = []
  take (suc n) [] = []
  take (suc n) (x ∷ xs) = x ∷ take n xs

  abbrev pub drop : ℕ → List A → List A
  drop zero xs = xs
  drop (suc n) [] = []
  drop (suc n) (x ∷ xs) = drop n xs

  abbrev pub is_empty : List A → Bool
  is_empty [] = true
  is_empty (x ∷ xs) = false

  pub length-append : (xs ys : List A) → length (xs ++ ys) ≡ length xs + length ys
  length-append [] ys = omega arith
  length-append (x ∷ xs) ys = omega (arith, length-append xs ys)

  pub length-take : (n : ℕ) (xs : List A) → length (take n xs) ≡ min n (length xs)
  length-take zero xs = omega arith
  length-take (suc n) [] = omega arith
  length-take (suc n) (x ∷ xs) = omega (arith, length-take n xs)

  pub length-drop : (n : ℕ) (xs : List A) → length (drop n xs) ≡ length xs - n
  length-drop zero xs = omega arith
  length-drop (suc n) [] = omega arith
  length-drop (suc n) (x ∷ xs) = omega (arith, length-drop n xs)

  pub take-append-drop : (n : ℕ) (xs : List A) → take n xs ++ drop n xs ≡ xs
  take-append-drop zero xs = refl
  take-append-drop (suc n) [] = refl
  take-append-drop (suc n) (x ∷ xs) = ap (λ l. x ∷ l) (take-append-drop n xs)

  pub drop_past : (xs ys : List A) (x : A) → drop (length xs + 1) (xs ++ x ∷ ys) ≡ ys
  drop_past [] ys x = refl
  drop_past (y ∷ xs) ys x = simp towards_suc (rw add-one at (drop_past xs ys x))

-- A predicate of every element.
module _ {ℓ κ} {A : Type ℓ} (P : A → Type κ) where
  abbrev pub All : List A → Type κ
  All [] = Unit
  All (x ∷ xs) = P x × All xs

  pub All-append : (xs ys : List A) → All xs → All ys → All (xs ++ ys)
  All-append [] ys _ hy = hy
  All-append (x ∷ xs) ys (px, hx) hy = (px, All-append xs ys hx hy)

pub All-imp {ℓ κ μ} :
    {A : Type ℓ} {P : A → Type κ} {Q : A → Type μ}
    → ((a : A) → P a → Q a)
    → (xs : List A) → All P xs
    → All Q xs
All-imp f [] h = tt
All-imp f (x ∷ xs) h = (f x h.0, All-imp f xs h.1)

pub All-imp2 {ℓ κ μ ν} :
    {A : Type ℓ} {P : A → Type κ} {Q : A → Type μ} {R : A → Type ν}
    → ((a : A) → P a → Q a → R a)
    → (xs : List A) → All P xs
    → All Q xs
    → All R xs
All-imp2 f [] h g = tt
All-imp2 f (x ∷ xs) h g = (f x h.0 g.0, All-imp2 f xs h.1 g.1)

-- The text has no byte `b`.
abbrev pub Lacks : ℕ → Bytes → Type 0
Lacks b = All (λ c. c ≢ b)

-- The codes of a literal; these are its bytes when the text is ASCII.
abbrev pub codes : String → Bytes
codes String.[] = []
codes (String.◌∷◌ c s) = code c ∷ codes s

-- `contains`, `removeAll` and `append` of a `QList` or a `QSet`.
module _ {ℓ} {A : Type ℓ} ⦃e : Key A⦄ where
  unfoldable pub contains : List A → A → Bool
  contains [] a = false
  contains (x ∷ xs) a = x == a || contains xs a

  unfoldable pub remove_all : List A → A → List A
  remove_all [] a = []
  remove_all (x ∷ xs) a = let rest = remove_all xs a in if x == a then rest else x ∷ rest

  pub contains-remove_all :
      (xs : List A) (a b : A)
      → contains (remove_all xs a) b ≡ (if a == b then false else contains xs b)
  unfolding contains remove_all
  contains-remove_all [] a b = ground arith
  contains-remove_all (x ∷ xs) a b =
      ground (arith, contains-remove_all xs a b, e.beq_iff x a, e.beq_iff x b, e.beq_iff a b)

  pub contains-append :
      (xs ys : List A) (b : A) → contains (xs ++ ys) b ≡ (contains xs b || contains ys b)
  unfolding contains
  contains-append [] ys b = refl
  contains-append (x ∷ xs) ys b = ground (arith, contains-append xs ys b)

-- `indexOf(c)`, `split(c)`, `join(c)`, `mid`, `startsWith`, `trimmed` and `toLower`.
unfoldable pub index_of : ℕ → Bytes → Option ℕ
index_of b [] = none
index_of b (c ∷ s) =
    if nat_eqb c b then some 0 else elim (index_of b s) [ none ↦ none | some i ↦ some (suc i) ]

abbrev pub cons_head : ℕ → List Bytes → List Bytes
cons_head c [] = (c ∷ []) ∷ []
cons_head c (p ∷ ps) = (c ∷ p) ∷ ps

unfoldable pub split : ℕ → Bytes → List Bytes
split sep [] = [] ∷ []
split sep (c ∷ s) =
    let parts = split sep s in if nat_eqb c sep then [] ∷ parts else cons_head c parts

-- The parts of a split that are not empty, as with `Qt::SkipEmptyParts`.
unfoldable pub skip_empty : List Bytes → List Bytes
skip_empty [] = []
skip_empty (p ∷ ps) = let rest = skip_empty ps in if is_empty p then rest else p ∷ rest

unfoldable pub join : Bytes → List Bytes → Bytes
join sep [] = []
join sep (p ∷ []) = p
join sep (p ∷ q ∷ ps) = p ++ (sep ++ join sep (q ∷ ps))

abbrev pub starts_with : ℕ → Bytes → Bool
starts_with b [] = false
starts_with b (c ∷ s) = nat_eqb c b

-- `mid(pos, len)` within the text.
abbrev pub mid : ℕ → ℕ → Bytes → Bytes
mid pos len s = take len (drop pos s)

unfoldable pub is_space : ℕ → Bool
is_space c = nat_eqb c 32 || (leb 9 c && leb c 13)

unfoldable pub trim_left : Bytes → Bytes
unfolding is_space
trim_left [] = []
trim_left (c ∷ s) = let rest = trim_left s in if is_space c then rest else c ∷ s

unfoldable pub trim_right : Bytes → Bytes
unfolding is_space
trim_right [] = []
trim_right (c ∷ s) = let rest = trim_right s in if is_space c && is_empty rest then [] else c ∷ rest

unfoldable pub trimmed : Bytes → Bytes
unfolding trim_left trim_right
trimmed s = trim_left (trim_right s)

unfoldable pub to_lower : Bytes → Bytes
to_lower [] = []
to_lower (c ∷ s) = (if leb b'A' c && leb c b'Z' then c + 32 else c) ∷ to_lower s

-- Splitting a join gives the parts back.
pub split-prefix :
    (sep : ℕ) (p rest : Bytes) → Lacks sep p → split sep (p ++ sep ∷ rest) ≡ p ∷ split sep rest
unfolding split
split-prefix sep [] rest h = ground arith
split-prefix sep (c ∷ p) rest h = ground (arith, split-prefix sep p rest)

pub split_whole : (sep : ℕ) (p : Bytes) → Lacks sep p → split sep p ≡ p ∷ []
unfolding split
split_whole sep [] h = refl
split_whole sep (c ∷ p) h = ground (arith, split_whole sep p)

pub split-join :
    (sep : ℕ) (p : Bytes) (ps : List Bytes)
    → All (Lacks sep) (p ∷ ps)
    → split sep (join (sep ∷ []) (p ∷ ps)) ≡ p ∷ ps
unfolding join
split-join sep p [] h = split_whole sep p h.0
split-join sep p (q ∷ ps) h =
    split-prefix sep p (join (sep ∷ []) (q ∷ ps)) h.0 ∙ ap (λ l. p ∷ l) (split-join sep q ps h.1)

pub index_of-append :
    (b : ℕ) (p rest : Bytes) → Lacks b p → index_of b (p ++ b ∷ rest) ≡ some (length p)
unfolding index_of
index_of-append b [] rest h = ground arith
index_of-append b (c ∷ p) rest h = ground (arith, index_of-append b p rest)

pub index_of-Lacks : (b : ℕ) (p : Bytes) → Lacks b p → index_of b p ≡ none
unfolding index_of
index_of-Lacks b [] h = refl
index_of-Lacks b (c ∷ p) h = ground (arith, index_of-Lacks b p)

pub join-Lacks :
    (b : ℕ) (sep : Bytes) (ps : List Bytes) → Lacks b sep → All (Lacks b) ps → Lacks b (join sep ps)
unfolding join
join-Lacks b sep [] hs h = tt
join-Lacks b sep (p ∷ []) hs h = h.0
join-Lacks b sep (p ∷ q ∷ ps) hs h =
    All-append _ p _ h.0 (All-append _ sep _ hs (join-Lacks b sep (q ∷ ps) hs h.1))

module _ {ℓ} {A : Type ℓ} where
  pub take-length : (xs ys : List A) → take (length xs) (xs ++ ys) ≡ xs
  take-length [] ys = refl
  take-length (x ∷ xs) ys = ap (λ l. x ∷ l) (take-length xs ys)

  pub take_all : (n : ℕ) (xs : List A) → length xs ≤ n → take n xs ≡ xs
  take_all zero [] h = refl
  take_all zero (x ∷ xs) h = elim h [ ]
  take_all (suc n) [] h = refl
  take_all (suc n) (x ∷ xs) h = ap (λ l. x ∷ l) (take_all n xs (omega arith))

-- `truncate`.
pub truncate {ℓ} : {A : Type ℓ} → ℕ → List A → List A
truncate n s = take n s

pub truncate_all {ℓ} : {A : Type ℓ} (n : ℕ) (s : List A) → length s ≤ n → truncate n s ≡ s
unfolding truncate
truncate_all n s h = take_all n s h

pub length-truncate {ℓ} : {A : Type ℓ} (n : ℕ) (s : List A) → length (truncate n s) ≤ n
unfolding truncate
length-truncate n s = omega (arith, length-take n s)

pub truncate-All {ℓ κ} :
    {A : Type ℓ} (P : A → Type κ) (n : ℕ) (s : List A) → All P s → All P (truncate n s)
unfolding truncate
truncate-All P zero s h = tt
truncate-All P (suc n) [] h = tt
truncate-All P (suc n) (c ∷ s) h = (h.0, truncate-All P n s h.1)

-- What is left of a text when its first `n` bytes are taken away.
pub remove_front {ℓ} : {A : Type ℓ} → ℕ → List A → List A
remove_front n s = drop n s

module _ {ℓ} {A : Type ℓ} where
  pub truncate-append-remove_front : (n : ℕ) (s : List A) → truncate n s ++ remove_front n s ≡ s
  unfolding truncate remove_front
  truncate-append-remove_front n s = take-append-drop n s

  pub truncate-min : (n : ℕ) (s : List A) → length (truncate n s) ≡ min n (length s)
  unfolding truncate
  truncate-min n s = length-take n s

  pub length-remove_front : (n : ℕ) (s : List A) → length (remove_front n s) ≡ length s - n
  unfolding remove_front
  length-remove_front n s = length-drop n s

  pub is_empty-length : (s : List A) → is_empty s ≡ nat_eqb (length s) 0
  is_empty-length [] = refl
  is_empty-length (x ∷ s) = ground arith

  pub length-zero : (s : List A) → length s ≡ 0 → s ≡ []
  length-zero [] h = refl
  length-zero (x ∷ s) h = absurd (omega arith)
