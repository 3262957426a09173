-- ===== src/Tags/Escape.antt =====
-- Escaping a tag value and reading it back.
use chatripper.Common.{
  ℕ, ◌≡◌, refl, ◌≢◌, Bool, true, false, [], ◌∷◌, ◌++◌, arith, Bytes, nat_eqb, is_empty, All,
  All-append, if◌then◌else◌, ◌∙◌, ap, append-nil,
}
use chatripper.Tags.{backslash, escape_char, escape_tag_value, unescape_tag_value}

-- A value with one trailing backslash taken off, if it has one.
unfoldable pub chop_backslash : Bytes → Bytes
chop_backslash [] = []
chop_backslash (c ∷ []) = if nat_eqb c backslash then [] else c ∷ []
chop_backslash (c ∷ d ∷ s) = c ∷ chop_backslash (d ∷ s)

-- An escaped character that is not a trailing backslash is read back, whatever follows.
unescape-escape_char :
    (c : ℕ) (rest : Bytes)
    → unescape_tag_value (escape_char c false ++ rest) ≡ c ∷ unescape_tag_value rest
unfolding unescape_tag_value escape_char
unescape-escape_char c [] = ground arith
unescape-escape_char c (d ∷ rest) = ground arith

unescape-escape_last : (c : ℕ) → unescape_tag_value (escape_char c true) ≡ chop_backslash (c ∷ [])
unfolding unescape_tag_value escape_char chop_backslash
unescape-escape_last c = ground arith

-- Reading an escaped value gives the value back, less one trailing backslash if it ends in one.
pub unescape-escape : (v : Bytes) → unescape_tag_value (escape_tag_value v) ≡ chop_backslash v
unfolding escape_tag_value chop_backslash
unescape-escape [] = unfold unescape_tag_value in refl
unescape-escape (c ∷ []) =
    ap unescape_tag_value (append-nil (escape_char c true)) ∙ unescape-escape_last c
unescape-escape (c ∷ d ∷ s) =
    unescape-escape_char c (escape_tag_value (d ∷ s)) ∙ ap (λ r. c ∷ r) (unescape-escape (d ∷ s))

-- The bytes that end a tag, a tag block or a line.
abbrev pub IsSafe : ℕ → Type 0
IsSafe c = (c ≢ b';') × (c ≢ 32) × (c ≢ 13) × (c ≢ 10)

escape_char-IsSafe : (c : ℕ) (last : Bool) → All IsSafe (escape_char c last)
unfolding escape_char
escape_char-IsSafe c last = ground arith

-- An escaped value has no byte that ends a tag, a tag block or a line.
pub escape-IsSafe : (v : Bytes) → All IsSafe (escape_tag_value v)
unfolding escape_tag_value
escape-IsSafe [] = tt
escape-IsSafe (c ∷ s) =
    All-append IsSafe (escape_char c (is_empty s)) _ (escape_char-IsSafe c (is_empty s))
      (escape-IsSafe s)
