-- ===== src/Web/SessionStore/Lifetime.antt =====
-- How long a session lives.
use chatripper.Common.{
  ℕ, ◌+◌, ◌*◌, ◌≤◌, ◌<◌, ◌≡◌, ◌≢◌, refl, ◌∙◌, Bool, true, false, Option, none, some, List, [], ◌∷◌,
  arith, Bytes, bytes_key, bytes_eqb, bytes_eqb_iff, Map, find, remove, find-insert, find-remove,
  ltb, if◌then◌else◌, ◌&&◌, lt→ltb, Option-cases, inl, inr,
}
use chatripper.Web.SessionStore.{
  SessionEntry, WebSessionStore, create_session, validate_token, destroy_session, get_user,
}

-- The session has not expired.
abbrev is_live : ℕ → Option SessionEntry → Bool
is_live now none = false
is_live now (some e) = if ltb e.expires now then false else true

-- The session behind a use of its token.
abbrev after_use : ℕ → Option SessionEntry → Option SessionEntry
after_use now none = none
after_use now (some e) =
    if ltb e.expires now
    then none
    else some (record { username = e.username; expires = now + 3600000 })

-- One use of a token: it is valid exactly if there is a session that has not expired. Then the
-- session lives on for an hour under the same name; else there is no session of that token any
-- more. No other session is touched.
pub validate_lem :
    (token other : Bytes) (now : ℕ) (sessions : WebSessionStore)
    → ((validate_token token now sessions).1 ≡ is_live now (find token sessions))
      × (find other (validate_token token now sessions).0 ≡ (
          if bytes_eqb token other
          then after_use now (find token sessions)
          else find other sessions))
unfolding validate_token
validate_lem token other now sessions = elim (Option-cases (find token sessions)) [
  | inl absent ↦ ground (arith, bytes_eqb_iff token other)
  | inr (e, found) ↦ ground (
    arith,
    bytes_eqb_iff token other,
    find-remove token other sessions,
    find-insert token other (record e { expires = now + 3600000 }) sessions,
  )
]

-- The uses of a token at the given times: whether each of them is valid.
unfoldable pub use_all : Bytes → List ℕ → WebSessionStore → Bool
use_all token [] sessions = true
use_all token (t ∷ ts) sessions =
    (validate_token token t sessions).1 && use_all token ts (validate_token token t sessions).0

-- The first use comes before the session expires, and each later one within an hour of the last.
abbrev IsSteady : ℕ → List ℕ → Type 0
IsSteady expires [] = Unit
IsSteady expires (t ∷ ts) = (t ≤ expires) × IsSteady (t + 3600000) ts

use_all-live :
    (token : Bytes) (ts : List ℕ) (sessions : WebSessionStore) (e : SessionEntry)
    → find token sessions ≡ some e
    → IsSteady e.expires ts
    → use_all token ts sessions ≡ true
unfolding use_all
use_all-live token [] sessions e found h = refl
use_all-live token (t ∷ ts) sessions e found h =
    let (valid, kept) = validate_lem token token t sessions in
    let on_time : ltb e.expires t ≡ false = ground arith in
    let live : (validate_token token t sessions).1 ≡ true = valid ∙ rw (found, on_time) in
    let next : find token (validate_token token t sessions).0
        ≡ some (record { username = e.username; expires = t + 3600000 }) =
      kept ∙ rw ((bytes_eqb_iff token token).1 refl, found, on_time) in
    rw live (
      use_all-live token ts (validate_token token t sessions).0
        (record { username = e.username; expires = t + 3600000 }) next h.1)

-- A session that is used often enough never ends.
create-use_all :
    (token username : Bytes) (ttl now : ℕ) (ts : List ℕ) (sessions : WebSessionStore)
    → IsSteady (now + ttl * 1000) ts
    → use_all token ts (create_session token username ttl now sessions) ≡ true
unfolding create_session
create-use_all token username ttl now ts sessions h =
    use_all-live token ts _ (record { username = username; expires = now + ttl * 1000 })
      (find-insert token token _ sessions ∙ rw ((bytes_eqb_iff token token).1 refl)) h

-- The token is refused in each of the uses, which may be of any tokens at any times.
abbrev pub Refused : Bytes → List (Bytes × ℕ) → WebSessionStore → Type 0
Refused token [] sessions = Unit
Refused token ((used, now) ∷ rest) sessions =
    (bytes_eqb token used ≡ true → (validate_token used now sessions).1 ≡ false)
    × Refused token rest (validate_token used now sessions).0

unknown-Refused :
    (token : Bytes) (uses : List (Bytes × ℕ)) (sessions : WebSessionStore)
    → find token sessions ≡ none
    → Refused token uses sessions
unknown-Refused token [] sessions h = tt
unknown-Refused token ((used, now) ∷ rest) sessions h =
    let (valid, kept) = validate_lem used token now sessions in
    (
      (λ e. ground (arith, valid, h, bytes_eqb_iff token used, e)),
      unknown-Refused token rest (validate_token used now sessions).0
          (ground (arith, kept, h, bytes_eqb_iff used token)),
    )

-- A token is refused for good once it came too late, and once its session was destroyed: in
-- whatever uses of whatever tokens come later, at whatever times, each use of it is refused.
pub expired_for_good :
    (token : Bytes) (e : SessionEntry) (t : ℕ) (uses : List (Bytes × ℕ))
    (sessions : WebSessionStore)
    → find token sessions ≡ some e
    → e.expires < t
    → ((validate_token token t sessions).1 ≡ false)
      × Refused token uses (validate_token token t sessions).0
      × Refused token uses (destroy_session token sessions)
unfolding destroy_session
expired_for_good token e t uses sessions found late =
    let (valid, kept) = validate_lem token token t sessions in
    let too_late : ltb e.expires t ≡ true = lt→ltb _ _ late in
    let self = (bytes_eqb_iff token token).1 refl in
    let gone : find token (validate_token token t sessions).0 ≡ none =
      kept ∙ rw (self, found, too_late) in
    let removed : find token (remove token sessions) ≡ none =
      find-remove token token sessions ∙ rw self in
    (
      valid ∙ rw (found, too_late),
      unknown-Refused token uses (validate_token token t sessions).0 gone,
      unknown-Refused token uses (remove token sessions) removed,
    )

-- A request is answered for an account only with a token that is not empty and whose session has
-- not expired; the account is the one of that session's name.
get_user_lem :
    (by_name : Map Bytes ℕ) (token : Bytes) (now account : ℕ) (sessions : WebSessionStore)
    → (get_user by_name token now sessions).1 ≡ some account
    → (e : SessionEntry) × (find token sessions ≡ some e)
      × (now ≤ e.expires)
      × (token ≢ [])
      × (find e.username by_name ≡ some account)
unfolding get_user
get_user_lem by_name token now account sessions h =
    let (valid, kept) = validate_lem token token now sessions in
    let self = (bytes_eqb_iff token token).1 refl in
    elim (Option-cases (find token sessions)) [
      | inl absent ↦ absurd (ground (arith, valid))
      | inr (e, found) ↦
          (e, found, ground (arith, valid), ground arith, ground (arith, valid, kept))
    ]
