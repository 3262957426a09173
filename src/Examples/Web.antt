-- ===== src/Examples/Web.antt =====
-- The web side: web/ratelimiter.cpp, web/sessionstore.cpp and web/routes/utils.cpp at work.
use chatripper.Common.{
  List, ◌∷◌, ℕ, ◌-◌, ◌≡◌, refl, false, some, [], ◌∷◌, arith, codes, Bytes, Map, find, bytes_key,
  bytes_eqb, length,
}
use Prim.Native.Nat.{min}
use chatripper.Common.Time.{pos}
use chatripper.Web.RateLimiter.{Entry, RateLimiter, denied, check}
use chatripper.Web.RateLimiter.Window.{passed, passed-InWindow}
use chatripper.Web.SessionStore.{SessionEntry, WebSessionStore, validate_token, destroy_session}
use chatripper.Web.SessionStore.Lifetime.{expired_for_good, Refused}

abbrev ip : Bytes
ip = codes "ip"

abbrev entry : Entry
entry = record { count = 1; window_start = 1000 }

abbrev limiter : RateLimiter
limiter = record { table = (ip, entry) ∷ []; max_requests = 2; window_seconds = 60 }

abbrev strict : RateLimiter
strict = record { table = (ip, entry) ∷ []; max_requests = 1; window_seconds = 60 }

entry_found : find ip limiter.table ≡ some entry
unfolding find bytes_eqb
entry_found = refl

passed-InWindow_example :
    passed ip (2000 ∷ 3000 ∷ []) limiter
    ≡ min (length {A = ℕ} (2000 ∷ 3000 ∷ [])) (limiter.max_requests - entry.count)
passed-InWindow_example =
    passed-InWindow ip (2000 ∷ 3000 ∷ []) limiter entry entry_found
      ((omega arith, omega arith), ((omega arith, omega arith), tt))

refused : (check ip 2000 2000 strict).1 ≡ denied 61000 (pos 59)
unfolding check find bytes_eqb
refused = refl

abbrev bob_session : SessionEntry
bob_session = record { username = codes "bob"; expires = 5000 }

abbrev one_session : WebSessionStore
one_session = (codes "t", bob_session) ∷ []

session_found : find (codes "t") one_session ≡ some bob_session
unfolding find bytes_eqb
session_found = refl

-- Two uses of the token, and one of another between them.
abbrev later_uses : List (Bytes × ℕ)
later_uses = (codes "t", 7000) ∷ (codes "u", 7500) ∷ (codes "t", 8000) ∷ []

expired_for_good_example :
    ((validate_token (codes "t") 6000 one_session).1 ≡ false)
    × Refused (codes "t") later_uses (validate_token (codes "t") 6000 one_session).0
    × Refused (codes "t") later_uses (destroy_session (codes "t") one_session)
expired_for_good_example =
    expired_for_good (codes "t") bob_session 6000 later_uses one_session session_found (omega arith)

abbrev by_name : Map Bytes ℕ
by_name = (codes "bob", 2) ∷ []
