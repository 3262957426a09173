-- ===== src/Web/SessionStore/Cookies.antt =====
-- web/routes/utils.cpp: `tokenFromRequest` and `tokenFromCookies`, over the values of the `Cookie`
-- headers, and `ipFromRequest`, over those of `X-Forwarded-For`.
use chatripper.Common.{
  ℕ, ◌≡◌, ◌≢◌, refl, ap, ◌∙◌, false, Option, none, some, List, [], ◌∷◌, ◌++◌, arith, Bytes, codes,
  split, skip_empty, trimmed, trim_left, trim_right, is_space, join, bytes_eqb, if◌then◌else◌, All,
  All-imp, All-append, ◌↔◌, cons_head, nat_eqb, nat_eqb_iff, Lacks, split-prefix, split_whole,
  split-join, Bool-cases, inl, inr,
}

abbrev session_name : Bytes
session_name = codes "session"

-- The test of one part of the header: the token, if the part is the session cookie.
unfoldable session_part : Bytes → Option Bytes
session_part part = elim (skip_empty (split b'=' part)) [
  | [] ↦ none
  | name ∷ [] ↦ none
  | name ∷ value ∷ [] ↦ if bytes_eqb (trimmed name) session_name then some (trimmed value) else none
  | name ∷ value ∷ more ∷ rest ↦ none
]

-- `for (const auto &p : parts)`
unfoldable find_session : List Bytes → Bytes
unfolding session_part
find_session [] = []
find_session (part ∷ parts) = elim (session_part part) [
  | none ↦ find_session parts
  | some token ↦ token
]

unfoldable token_from_cookies : List Bytes → Bytes
unfolding find_session
token_from_cookies [] = []
token_from_cookies (header ∷ headers) = find_session (split b';' header)

-- The address that `ipFromRequest` takes from the first header, before it is parsed. `fault` is
-- `first()` of an empty list; `no_header` is the case in which the peer's address is taken.
pub data Forwarded : Type 0 where
  no_header fault : Forwarded
  address : Bytes → Forwarded

unfoldable forwarded_for : List Bytes → Forwarded
forwarded_for [] = no_header
forwarded_for (header ∷ headers) = elim (skip_empty (split b',' header)) [
  | [] ↦ fault
  | part ∷ parts ↦ address (trimmed part)
]

-- A name or a value that a cookie can carry.
abbrev IsToken : Bytes → Type 0
IsToken s = (s ≢ []) × All (λ c. (c ≢ b';') × (c ≢ b'=') × (is_space c ≡ false)) s

abbrev IsCookie : Bytes × Bytes → Type 0
IsCookie c = IsToken c.0 × IsToken c.1

abbrev pair_text : Bytes × Bytes → Bytes
pair_text (name, value) = name ++ b'=' ∷ value

-- The cookies behind the first one: each is set off by a semicolon and a space.
unfoldable write_more : List (Bytes × Bytes) → List Bytes
write_more [] = []
write_more (c ∷ cs) = (32 ∷ pair_text c) ∷ write_more cs

-- The header that a browser sends.
unfoldable write_cookies : Bytes × Bytes → List (Bytes × Bytes) → Bytes
unfolding write_more
write_cookies c cs = join (b';' ∷ []) (pair_text c ∷ write_more cs)

-- The value of the first cookie of that name, or an empty text.
unfoldable value_of : Bytes → List (Bytes × Bytes) → Bytes
value_of name [] = []
value_of name ((n, v) ∷ cs) = if bytes_eqb n name then v else value_of name cs

trim_right-id : (s : Bytes) → All (λ c. is_space c ≡ false) s → trim_right s ≡ s
unfolding trim_right
trim_right-id [] h = refl
trim_right-id (c ∷ s) h = ground (arith, trim_right-id s h.1)

trim_left-id : (c : ℕ) (s : Bytes) → is_space c ≡ false → trim_left (c ∷ s) ≡ c ∷ s
unfolding trim_left
trim_left-id c s h = rw h

trim_right-space :
    (c : ℕ) (s : Bytes) → trim_right (c ∷ s) ≡ c ∷ s → trim_right (32 ∷ c ∷ s) ≡ 32 ∷ c ∷ s
unfolding trim_right
trim_right-space c s h = ground arith

trim_left-space : (s : Bytes) → trim_left (32 ∷ s) ≡ trim_left s
unfolding trim_left
trim_left-space s = refl

trimmed_lem : (s : Bytes) → trimmed s ≡ trim_left (trim_right s)
unfolding trimmed
trimmed_lem s = refl

-- A token, with or without a space before it, is trimmed to itself.
trimmed-id : (s : Bytes) → IsToken s → (trimmed s ≡ s) × (trimmed (32 ∷ s) ≡ s)
trimmed-id [] h = absurd (h.0 refl)
trimmed-id (c ∷ s) h =
    let right = trim_right-id (c ∷ s) (All-imp (λ d p. p.2) (c ∷ s) h.1) in
    let left = trim_left-id c s h.1.0.2 in
    (
      trimmed_lem (c ∷ s) ∙ (ap trim_left right ∙ left),
      trimmed_lem (32 ∷ c ∷ s)
          ∙ (ap trim_left (trim_right-space c s right) ∙ (trim_left-space (c ∷ s) ∙ left)),
    )

IsToken-Lacks_eq : (s : Bytes) → IsToken s → Lacks b'=' s
IsToken-Lacks_eq s h = All-imp (λ c p. p.1) s h.1

IsToken-Lacks_semi : (s : Bytes) → IsToken s → Lacks b';' s
IsToken-Lacks_semi s h = All-imp (λ c p. p.0) s h.1

-- The two pieces of a part; `name` is perhaps begun by a space.
split_pair :
    (name value : Bytes)
    → name ≢ []
    → Lacks b'=' name
    → IsToken value
    → skip_empty (split b'=' (name ++ b'=' ∷ value)) ≡ name ∷ value ∷ []
unfolding skip_empty
split_pair [] value ne l h = absurd (ne refl)
split_pair name [] ne l h = absurd (h.0 refl)
split_pair (c ∷ name) (d ∷ value) ne l h = rw (
  split-prefix b'=' (c ∷ name) (d ∷ value) l,
  split_whole b'=' (d ∷ value) (IsToken-Lacks_eq (d ∷ value) h),
)

session_part_lem :
    (part name value : Bytes)
    → skip_empty (split b'=' part) ≡ name ∷ value ∷ []
    → session_part part
      ≡ (if bytes_eqb (trimmed name) session_name then some (trimmed value) else none)
unfolding session_part
session_part_lem part name value h = rw (h, session_part)

-- What one part of the header gives, the first or a later one.
session_part-pair :
    (name value : Bytes)
    → IsCookie (name, value)
    → (session_part (pair_text (name, value))
        ≡ (if bytes_eqb name session_name then some value else none))
      × (session_part (32 ∷ pair_text (name, value))
          ≡ (if bytes_eqb name session_name then some value else none))
session_part-pair name value h =
    let (name_here, name_later) = trimmed-id name h.0 in
    let value_here = (trimmed-id value h.1).0 in
    let no_eq = IsToken-Lacks_eq name h.0 in
    (
      session_part_lem _ name value (split_pair name value h.0.0 no_eq h.1)
          ∙ rw (name_here, value_here),
      session_part_lem _ (32 ∷ name) value
            (split_pair (32 ∷ name) value (λ e. cc) (omega arith, no_eq) h.1)
          ∙ rw (name_later, value_here),
    )

find_session-more :
    (cs : List (Bytes × Bytes))
    → All IsCookie cs
    → find_session (write_more cs) ≡ value_of session_name cs
unfolding find_session write_more value_of
find_session-more [] h = refl
find_session-more ((n, v) ∷ cs) h =
    ground (arith, session_part-pair n v h.0, find_session-more cs h.1)

pair-Lacks_semi : (c : Bytes × Bytes) → IsCookie c → Lacks b';' (pair_text c)
pair-Lacks_semi (n, v) h =
    All-append _ n _ (IsToken-Lacks_semi n h.0) (omega arith, IsToken-Lacks_semi v h.1)

more-Lacks_semi : (cs : List (Bytes × Bytes)) → All IsCookie cs → All (Lacks b';') (write_more cs)
unfolding write_more
more-Lacks_semi [] h = tt
more-Lacks_semi (c ∷ cs) h = ((omega arith, pair-Lacks_semi c h.0), more-Lacks_semi cs h.1)

-- Of the header that a browser sends, the program takes the value of the first cookie named
-- `session`, wherever it stands, and an empty text if there is none. Only the first header counts.
token-write :
    (c : Bytes × Bytes) (cs : List (Bytes × Bytes)) (headers : List Bytes)
    → All IsCookie (c ∷ cs)
    → token_from_cookies (write_cookies c cs ∷ headers) ≡ value_of session_name (c ∷ cs)
unfolding token_from_cookies write_cookies find_session value_of
token-write (n, v) cs headers h =
    rw
      (split-join b';' (pair_text (n, v)) (write_more cs)
        (pair-Lacks_semi (n, v) h.0, more-Lacks_semi cs h.1))
      (ground (arith, session_part-pair n v h.0, find_session-more cs h.1))

cons_head-parts : (c : ℕ) (ps : List Bytes) → skip_empty (cons_head c ps) ≡ [] → ⊥
unfolding skip_empty
cons_head-parts c [] h = cc
cons_head-parts c (p ∷ ps) h = cc

no_parts : (s : Bytes) → All (λ c. c ≡ b',') s → skip_empty (split b',' s) ≡ []
unfolding split skip_empty
no_parts [] h = refl
no_parts (c ∷ s) h = ground (arith, no_parts s h.1)

no_parts_sound : (s : Bytes) → skip_empty (split b',' s) ≡ [] → All (λ c. c ≡ b',') s
unfolding split skip_empty
no_parts_sound [] h = tt
no_parts_sound (c ∷ s) h = elim (Bool-cases (nat_eqb c b',')) [
  | inl e ↦ ((nat_eqb_iff c b',').0 e, no_parts_sound s (ground arith))
  | inr e ↦ absurd (cons_head-parts c (split b',' s) (rw e at h))
]

-- A header of nothing but commas makes `first()` read from an empty list; any other gives an
-- address.
forwarded_fault :
    (headers : List Bytes) (header : Bytes)
    → (forwarded_for (header ∷ headers) ≡ fault) ↔ All (λ c. c ≡ b',') header
unfolding forwarded_for
forwarded_fault headers header =
    (λ h. no_parts_sound header (ground arith), λ h. rw (no_parts header h, forwarded_for))
