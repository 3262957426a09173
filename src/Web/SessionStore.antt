-- ===== src/Web/SessionStore.antt =====
-- web/sessionstore.cpp, web/routes/utils.cpp: login sessions and the cookies that name them.
-- The clock is an argument, and so is the random token; the mutex makes each call one step.
pub mod Lifetime
pub mod Cookies
use chatripper.Common.{
  ℕ, Bool, true, false, not, ◌||◌, Option, none, some, Bytes, bytes_key, Map, find, insert, remove,
  ltb, [], is_empty, if◌then◌else◌,
}
use chatripper.Common.Time.{add_secs}

pub record SessionEntry : Type 0 where
  pub username : Bytes
  pub expires : ℕ

abbrev pub WebSessionStore : Type 0
WebSessionStore = Map Bytes SessionEntry

-- `createSession`: `token` is `randomToken(32)`; the store with the new session.
unfoldable pub create_session : Bytes → Bytes → ℕ → ℕ → WebSessionStore → WebSessionStore
create_session token username ttl_seconds now sessions =
    insert token (record { username = username; expires = add_secs now ttl_seconds }) sessions

-- The time to live that a valid use of the token gives it anew.
abbrev sliding_ttl : ℕ
sliding_ttl = 3600

validate_found : Bytes → ℕ → WebSessionStore → Option SessionEntry → WebSessionStore × Bool
validate_found token now sessions none = (sessions, false)
validate_found token now sessions (some e) =
    if ltb e.expires now
    then (remove token sessions, false)
    else (insert token (record e { expires = add_secs now sliding_ttl }) sessions, true)

unfoldable pub validate_token : Bytes → ℕ → WebSessionStore → WebSessionStore × Bool
unfolding validate_found
validate_token token now sessions = validate_found token now sessions (find token sessions)

-- An empty `QString` if there is no session.
unfoldable pub username_for_token : Bytes → WebSessionStore → Bytes
username_for_token token sessions = elim (find token sessions) [ none ↦ [] | some e ↦ e.username ]

unfoldable pub destroy_session : Bytes → WebSessionStore → WebSessionStore
destroy_session token sessions = remove token sessions

-- `get_user`: `by_name` is `accounts_lookup_name`, `token` the token of the request.
unfoldable pub get_user : Map Bytes ℕ → Bytes → ℕ → WebSessionStore → WebSessionStore × Option ℕ
unfolding validate_token username_for_token
get_user by_name token now sessions =
    if is_empty token
    then (sessions, none)
    else let (sessions', valid) = validate_token token now sessions in
      let username = username_for_token token sessions' in
      (sessions', (if not valid || is_empty username then none else find username by_name))
