-- ===== src/Tags/Single.antt =====
-- irc/utils.cpp: one tag, written by `buildMessageTags` and read by `parseMessageTags`, and the
-- map that the tags are put into.
use chatripper.Common.{
  ℕ, ◌≡◌, refl, ◌∙◌, ap, ◌≢◌, true, false, Option, none, some, [], ◌∷◌, ◌++◌, map, arith, Bytes,
  insert, is_empty, if◌then◌else◌, bytes_key, bytes_eqb, bytes_before, All, Lacks, All-append,
  All-imp, index_of-append, index_of-Lacks, take-length, drop_past, Bool-cases, inl, inr,
}
use chatripper.Caps.{capability_flags}
use chatripper.Tags.{
  escape_tag_value, unescape_tag_value, TagMap, to_bytes, tag_text, split_tag, tag_value, add_tag,
  add_tags,
}
use chatripper.Tags.Escape.{chop_backslash, unescape-escape, IsSafe, escape-IsSafe}

-- A key that the tag grammar can carry.
abbrev IsKey : Bytes → Type 0
IsKey k = (k ≢ []) × All (λ c. IsSafe c × (c ≢ b'=')) k

-- A value in the form in which the parser keeps it: no value, or a text that is not empty and
-- does not end in a backslash.
abbrev IsValue : Option Bytes → Type 0
IsValue none = Unit
IsValue (some v) = (v ≢ []) × (chop_backslash v ≡ v)

abbrev pub IsTag : Bytes × Option Bytes → Type 0
IsTag t = IsKey t.0 × IsValue t.1

-- What stands behind the `=` of a tag.
abbrev raw_value : Option Bytes → Bytes
raw_value o = if is_empty (to_bytes o) then [] else escape_tag_value (to_bytes o)

is_empty-ne-nil : (s : Bytes) → s ≢ [] → is_empty s ≡ false
is_empty-ne-nil [] h = absurd (h refl)
is_empty-ne-nil (c ∷ s) h = refl

is_empty-append : (s : Bytes) (c : ℕ) (t : Bytes) → is_empty (s ++ c ∷ t) ≡ false
is_empty-append [] c t = refl
is_empty-append (d ∷ s) c t = refl

-- Key before key, as a `QMap` lists them.
abbrev pub Sorted : TagMap → Type 0
Sorted [] = Unit
Sorted (t ∷ m) = All (λ u. bytes_before t.0 u.0 ≡ true) m × Sorted m

bytes_before_asym : (a b : Bytes) → bytes_before a b ≡ true → bytes_before b a ≡ false
unfolding bytes_before
bytes_before_asym a [] h = cc
bytes_before_asym [] (y ∷ ys) h = refl
bytes_before_asym (x ∷ xs) (y ∷ ys) h = ground (arith, bytes_before_asym xs ys)

bytes_before_ne : (a b : Bytes) → bytes_before a b ≡ true → bytes_eqb a b ≡ false
unfolding bytes_before bytes_eqb
bytes_before_ne a [] h = cc
bytes_before_ne [] (y ∷ ys) h = refl
bytes_before_ne (x ∷ xs) (y ∷ ys) h = ground (arith, bytes_before_ne xs ys)

-- A key behind all others is put at the end.
pub insert_last :
    (k : Bytes) (v : Option Bytes) (m : TagMap)
    → All (λ u. bytes_before u.0 k ≡ true) m
    → insert k v m ≡ m ++ (k, v) ∷ []
unfolding insert
insert_last k v [] h = refl
insert_last k v ((j, w) ∷ m) h =
    ground (arith, bytes_before_asym j k h.0, bytes_before_ne j k h.0, insert_last k v m h.1)

tag_value-id : (o : Option Bytes) → IsValue o → tag_value (to_bytes o) ≡ o
tag_value-id none h = refl
tag_value-id (some []) h = absurd (h.0 refl)
tag_value-id (some (c ∷ v)) h = refl

IsKey-Lacks_eq : (k : Bytes) → IsKey k → Lacks b'=' k
IsKey-Lacks_eq k h = All-imp (λ c p. p.1) k h.1

IsKey-IsSafe : (k : Bytes) → IsKey k → All IsSafe k
IsKey-IsSafe k h = All-imp (λ c p. p.0) k h.1

split_tag-key : (k : Bytes) → Lacks b'=' k → split_tag k ≡ (k, [])
unfolding split_tag
split_tag-key k h = ground (arith, index_of-Lacks b'=' k h)

pub split_tag-pair : (k e : Bytes) → Lacks b'=' k → split_tag (k ++ b'=' ∷ e) ≡ (k, e)
unfolding split_tag
split_tag-pair k e h =
    ground (arith, index_of-append b'=' k e h, take-length k (b'=' ∷ e), drop_past k e b'=')

read_value : (o : Option Bytes) → IsValue o → tag_value (unescape_tag_value (raw_value o)) ≡ o
read_value none h = unfold unescape_tag_value in refl
read_value (some []) h = absurd (h.0 refl)
read_value (some (c ∷ v)) h = ap tag_value (unescape-escape (c ∷ v) ∙ h.1)

module _ (k : Bytes) (o : Option Bytes) (h : IsTag (k, o)) where
  tag_text-ne-nil : is_empty (tag_text (k, o)) ≡ false
  unfolding tag_text
  tag_text-ne-nil = elim (Bool-cases (is_empty (to_bytes o))) [
    | inl e ↦ rw e (is_empty-ne-nil k h.0.0)
    | inr e ↦ rw e (is_empty-append k b'=' (escape_tag_value (to_bytes o)))
  ]

  split_tag-tag_text : split_tag (tag_text (k, o)) ≡ (k, raw_value o)
  unfolding tag_text
  split_tag-tag_text = elim (Bool-cases (is_empty (to_bytes o))) [
    | inl e ↦ rw e (split_tag-key k (IsKey-Lacks_eq k h.0))
    | inr e ↦ rw e (split_tag-pair k (escape_tag_value (to_bytes o)) (IsKey-Lacks_eq k h.0))
  ]

  pub tag_text-IsSafe : All IsSafe (tag_text (k, o))
  unfolding tag_text
  tag_text-IsSafe = elim (Bool-cases (is_empty (to_bytes o))) [
    | inl e ↦ rw e (IsKey-IsSafe k h.0)
    | inr e ↦ rw e (
        All-append IsSafe k (b'=' ∷ escape_tag_value (to_bytes o)) (IsKey-IsSafe k h.0)
          (omega arith, escape-IsSafe (to_bytes o)))
  ]

-- Reading one written tag.
add_tag-tag_text :
    (k : Bytes) (o : Option Bytes) (m : TagMap)
    → IsTag (k, o)
    → add_tag (tag_text (k, o)) m ≡ insert k o m
unfolding add_tag
add_tag-tag_text k o m h =
    rw (tag_text-ne-nil k o h, split_tag-tag_text k o h) (ap (λ v. insert k v m) (read_value o h.1))

-- Inserting one tag after the other.
unfoldable pub insert_all : TagMap → TagMap → TagMap
insert_all [] m = m
insert_all ((k, o) ∷ tags) m = insert_all tags (insert k o m)

pub add_tags-tag_text :
    (tags m : TagMap) → All IsTag tags → add_tags (map tag_text tags) m ≡ insert_all tags m
unfolding add_tags insert_all
add_tags-tag_text [] m h = refl
add_tags-tag_text ((k, o) ∷ tags) m h =
    ap (add_tags (map tag_text tags)) (add_tag-tag_text k o m h.0)
    ∙ add_tags-tag_text tags (insert k o m) h.1
