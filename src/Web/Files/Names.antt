-- ===== src/Web/Files/Names.antt =====
-- web/routes/uploadroute.cpp, static.cpp and utils.h: which names are stored and served.
use chatripper.Common.{
  ℕ, ◌≡◌, ◌≢◌, refl, ap, ◌∙◌, sym, true, false, ◌&&◌, nat_eqb, Option, some, List, [], ◌∷◌, Bytes,
  codes, contains, split, cons_head, All, All-imp, arith, nat_key, Bool-cases, inl, inr,
}
use chatripper.Web.RateLimiter.{RateLimiter}
use chatripper.Web.Files.{
  has_dots, sanitize_path, file_name, matches_rest, is_valid_name, safe_file_name, served,
  get_static,
}

matches_rest-no_slash : (s : Bytes) → matches_rest s ≡ true → contains s b'/' ≡ false
unfolding matches_rest contains
matches_rest-no_slash [] h = refl
matches_rest-no_slash (c ∷ []) h = ground arith
matches_rest-no_slash (c ∷ d ∷ s) h = ground (arith, matches_rest-no_slash (d ∷ s))

-- A valid name stands in one folder.
pub is_valid_name-no_slash : (s : Bytes) → is_valid_name s ≡ true → contains s b'/' ≡ false
unfolding is_valid_name contains
is_valid_name-no_slash [] h = refl
is_valid_name-no_slash (c ∷ s) h = ground (arith, matches_rest-no_slash s)

pub file_name-no_slash : (s : Bytes) → contains s b'/' ≡ false → file_name s ≡ s
unfolding file_name
file_name-no_slash [] h = refl
file_name-no_slash (c ∷ s) h = rw h

pub safe_file_name-valid :
    (uuid filename : Bytes)
    → is_valid_name uuid ≡ true
    → is_valid_name (safe_file_name uuid filename) ≡ true
unfolding safe_file_name
safe_file_name-valid uuid filename h = ground arith

abbrev LacksDots : Bytes → Type 0
LacksDots s = has_dots s ≡ false

two_heads :
    (c d : ℕ) (parts : List Bytes)
    → (nat_eqb c b'.' && nat_eqb d b'.') ≡ false
    → All LacksDots (cons_head d parts)
    → All LacksDots (cons_head c (cons_head d parts))
unfolding has_dots
two_heads c d [] h k = (ground arith, tt)
two_heads c d (p ∷ ps) h k = (ground (arith, k.0), k.1)

no_pair : (c d : ℕ) (s : Bytes) → LacksDots (c ∷ d ∷ s) → (nat_eqb c b'.' && nat_eqb d b'.') ≡ false
unfolding has_dots
no_pair c d s h = ground arith

tail-LacksDots : (c : ℕ) (s : Bytes) → LacksDots (c ∷ s) → LacksDots s
unfolding has_dots
tail-LacksDots c [] h = refl
tail-LacksDots c (d ∷ s) h = ground arith

-- The parts between slashes, the first one with a character before it or not.
parts-LacksDots :
    (s : Bytes)
    → (LacksDots s → All LacksDots (split b'/' s))
      × ((c : ℕ) → LacksDots (c ∷ s) → All LacksDots (cons_head c (split b'/' s)))
unfolding split has_dots
parts-LacksDots [] = (λ h. (refl, tt), λ c h. (refl, tt))
parts-LacksDots (d ∷ s) =
    let (whole, headed) = parts-LacksDots s in
    elim (Bool-cases (nat_eqb d b'/')) [
      | inl slash ↦ (
        λ h. rw slash (refl, whole (tail-LacksDots d s h)),
        λ c h. rw slash (refl, whole (tail-LacksDots d s (tail-LacksDots c (d ∷ s) h))),
      )
      | inr other ↦ (
        λ h. rw other (headed d h),
        λ c h. rw other (
            two_heads c d (split b'/' s) (no_pair c d s h) (headed d (tail-LacksDots c (d ∷ s) h))),
      )
    ]

not_dots : (s : Bytes) → LacksDots s → s ≢ codes ".."
unfolding has_dots
not_dots s h e = cc (sym (ap has_dots e) ∙ h)

-- A request for a static file reads only a path in which no part between slashes is `..`, and answers
-- with what is read there.
pub get_static-inside :
    (read : Bytes → Option Bytes) (ip path : Bytes) (now later : ℕ) (limiter : RateLimiter)
    (body : Bytes)
    → (get_static read ip path now later limiter).1 ≡ served body
    → (read path ≡ some body) × All (λ part. part ≢ codes "..") (split b'/' path)
unfolding get_static sanitize_path
get_static-inside read ip path now later limiter body h =
    let safe : LacksDots path = ground arith in
    (ground arith, All-imp not_dots (split b'/' path) ((parts-LacksDots path).0 safe))
