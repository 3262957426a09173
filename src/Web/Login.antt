-- ===== src/Web/Login.antt =====
-- web/routes/authroute.cpp: the login of the web server. `QJsonDocument` is a parameter: the text
-- behind each key of the object that a body holds, empty where `toString` finds no text.
pub mod Answers
use chatripper.Common.{
  ℕ, Bool, true, false, not, Option, none, some, [], Bytes, codes, if◌then◌else◌,
}
use chatripper.State.{World, is_null}
use chatripper.Env.{Env, AuthEvent, auth_sasl_plain}
use chatripper.Core.Caches.{get_by_name}
use chatripper.Web.RateLimiter.{RateLimiter, check}
use chatripper.Web.SessionStore.{WebSessionStore, create_session}
use chatripper.Web.Files.{is_allowed}

pub record LoginRequest : Type 0 where
  pub ip : Bytes
  pub body : Bytes
  -- the readings of the clock: two of the limiter's, and the session's
  pub now : ℕ
  pub later : ℕ
  pub session_now : ℕ
  -- `randomToken(32)`
  pub token : Bytes

-- What a login may change.
pub record LoginState : Type 0 where
  pub limiter : RateLimiter
  pub sessions : WebSessionStore

pub data LoginResponse : Type 0 where
  too_many_logins invalid_json invalid_credentials : LoginResponse
  logged_in : Bytes → LoginResponse

-- The default of `ttlSeconds`.
abbrev pub session_ttl : ℕ
session_ttl = 3600

-- `create_session`: the token goes into the cookie.
unfoldable pub open_session : LoginRequest → Bytes → LoginState → LoginState × LoginResponse
unfolding create_session
open_session r username s = (
  record s { sessions = create_session r.token username session_ttl r.session_now s.sessions },
  logged_in r.token,
)

module _ (env : Env) (read_object : Bytes → Option (Bytes → Bytes)) where
  -- The name and the password against the operator's handler, or else against the account.
  unfoldable pub check_credentials :
      World → LoginRequest → (Bytes → Bytes) → LoginState → LoginState × LoginResponse
  unfolding open_session get_by_name
  check_credentials w r object s =
      let username = object (codes "username") in
      let password = object (codes "password") in
      let event : AuthEvent = record {
        username = username;
        password = password;
        cancelled = false;
        reason = [];
      } in
      if env.plugin.has_handler auth_sasl_plain
      then elim (env.plugin.on_auth event) [
        | none ↦ (s, invalid_credentials)
        | some answer ↦
            (if not answer.cancelled then open_session r username s else (s, invalid_credentials))
      ]
      else (let account = get_by_name username w in
          if is_null account
          then (s, invalid_credentials)
          else if not (env.validate_password password (w.account_at account).password)
          then (s, invalid_credentials)
          else open_session r username s)

  -- POST /api/1/login
  unfoldable pub login : World → LoginRequest → LoginState → LoginState × LoginResponse
  unfolding check check_credentials
  login w r s =
      let (limiter, result) = check r.ip r.now r.later s.limiter in
      let limited = record s { limiter = limiter } in
      if not (is_allowed result) then (limited, too_many_logins) else elim (read_object r.body) [
        | none ↦ (limited, invalid_json)
        | some object ↦ check_credentials w r object limited
      ]
