-- ===== src/Lines/Nick.antt =====
-- irc/utils.h: `isValidNick`, a regular expression. `is_letter` and `is_number` are the Unicode
-- classes `\p{L}` and `\p{N}` of the regular expression engine.
use chatripper.Common.{
  ℕ, ◌-◌, ◌≤◌, ◌≡◌, ◌⊎◌, ap, nat_eqb_iff, refl, Bool, true, false, ◌&&◌, ◌||◌, [], ◌∷◌, ◌++◌, arith,
  Bytes, length, nat_eqb, leb, All, is_empty, Bool-cases, inl, inr,
}

-- `[\[\]\\`_^{|}]`
unfoldable is_special : ℕ → Bool
is_special c =
    nat_eqb c b'['
    || nat_eqb c b']'
    || nat_eqb c b'\\'
    || nat_eqb c b'`'
    || nat_eqb c b'_'
    || nat_eqb c b'^'
    || nat_eqb c b'{'
    || nat_eqb c b'|'
    || nat_eqb c b'}'

module _ (is_letter is_number : ℕ → Bool) where
  unfoldable is_first : ℕ → Bool
  unfolding is_special
  is_first c = is_letter c || is_special c

  unfoldable is_later : ℕ → Bool
  unfolding is_special
  is_later c = is_letter c || is_number c || is_special c || nat_eqb c b'-'

  -- `{0,8}$` from here on. `$` also matches before a line feed that ends the text.
  unfoldable matches_later : ℕ → Bytes → Bool
  unfolding is_later
  matches_later n [] = true
  matches_later n (c ∷ s) =
      (nat_eqb c 10 && is_empty s) || (leb 1 n && is_later c && matches_later (n - 1) s)

  unfoldable pub is_valid_nick : Bytes → Bool
  unfolding is_first matches_later
  is_valid_nick [] = false
  is_valid_nick (c ∷ s) = is_first c && matches_later 8 s

  abbrev IsLater : ℕ → Type 0
  IsLater c = is_later c ≡ true

  -- What the comment of `isValidNick` promises: a first character of the first class, and at most
  -- eight of the second behind it.
  abbrev IsNick : Bytes → Type 0
  IsNick [] = ⊥
  IsNick (c ∷ s) = (is_first c ≡ true) × All IsLater s × (length s ≤ 8)

  -- A rest that matches: up to `n` characters of the second class, and then perhaps a line feed.
  abbrev IsRest : ℕ → Bytes → Type 0
  IsRest n s =
      (All IsLater s × (length s ≤ n))
      ⊎ ((m : Bytes) × (s ≡ m ++ 10 ∷ []) × All IsLater m × (length m ≤ n))

  IsRest-cons :
      (n c : ℕ) (s : Bytes)
      → leb 1 n ≡ true
      → is_later c ≡ true
      → IsRest (n - 1) s
      → IsRest n (c ∷ s)
  IsRest-cons n c s p q (inl (a, b)) = inl ((q, a), ground arith)
  IsRest-cons n c s p q (inr (m, e, a, b)) = inr (c ∷ m, ap (λ t. c ∷ t) e, (q, a), ground arith)

  newline_alone : (c n : ℕ) (s : Bytes) → nat_eqb c 10 ≡ true → is_empty s ≡ true → IsRest n (c ∷ s)
  newline_alone c n [] p q = inr ([], ap (λ d. d ∷ []) ((nat_eqb_iff c 10).0 p), tt, omega arith)
  newline_alone c n (d ∷ s) p q = cc

  matches_later_sound : (n : ℕ) (s : Bytes) → matches_later n s ≡ true → IsRest n s
  unfolding matches_later
  matches_later_sound n [] h = inl (tt, omega arith)
  matches_later_sound n (c ∷ s) h = elim (Bool-cases (nat_eqb c 10 && is_empty s)) [
    | inl e ↦ newline_alone c n s (ground arith) (ground arith)
    | inr e ↦
        IsRest-cons n c s (ground arith) (ground arith)
          (matches_later_sound (n - 1) s (ground arith))
  ]

  matches_later_complete :
      (n : ℕ) (s : Bytes) → All IsLater s → length s ≤ n → matches_later n s ≡ true
  unfolding matches_later
  matches_later_complete n [] a b = refl
  matches_later_complete n (c ∷ s) a b = ground (arith, matches_later_complete (n - 1) s a.1)

  matches_later_newline :
      (n : ℕ) (s : Bytes) → All IsLater s → length s ≤ n → matches_later n (s ++ 10 ∷ []) ≡ true
  unfolding matches_later
  matches_later_newline n [] a b = refl
  matches_later_newline n (c ∷ s) a b = ground (arith, matches_later_newline (n - 1) s a.1)

  -- An accepted name is a nickname in the sense of the comment, or one with a line feed behind it.
  is_valid_nick_sound :
      (s : Bytes)
      → is_valid_nick s ≡ true
      → IsNick s ⊎ ((m : Bytes) × (s ≡ m ++ 10 ∷ []) × IsNick m)
  unfolding is_valid_nick
  is_valid_nick_sound [] h = cc
  is_valid_nick_sound (c ∷ s) h = elim (matches_later_sound 8 s (ground arith)) [
    | inl r ↦ inl (ground arith, r.0, r.1)
    | inr (m, e, a, b) ↦ inr (c ∷ m, ap (λ t. c ∷ t) e, (ground arith, a, b))
  ]

  -- Every nickname is accepted, and so is every nickname with a line feed behind it.
  is_valid_nick_complete :
      (s : Bytes) → IsNick s → (is_valid_nick s ≡ true) × (is_valid_nick (s ++ 10 ∷ []) ≡ true)
  unfolding is_valid_nick
  is_valid_nick_complete [] h = absurd h
  is_valid_nick_complete (c ∷ s) h =
      ground (arith, matches_later_complete 8 s h.1 h.2, matches_later_newline 8 s h.1 h.2)
