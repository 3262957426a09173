-- ===== src/Web/Login/Answers.antt =====
-- web/routes/authroute.cpp: who is logged in, and what the session is good for.
use chatripper.Common.{
  ◌≡◌, Bool, true, false, not, ◌&&◌, Option, none, some, [], Bytes, codes, bytes_key, if◌then◌else◌,
  arith,
}
use chatripper.State.{World, is_null}
use chatripper.Env.{Env, auth_sasl_plain}
use chatripper.Core.Caches.{get_by_name}
use chatripper.Core.Accounts.Access.{is_accepted}
use chatripper.Web.RateLimiter.{check}
use chatripper.Web.SessionStore.{create_session}
use chatripper.Web.Files.{is_allowed}
use chatripper.Web.Login.{
  LoginRequest, LoginState, LoginResponse, logged_in, session_ttl, open_session, check_credentials,
  login,
}

abbrev pub is_success : LoginResponse → Bool
is_success (logged_in token) = true
is_success _ = false

module _ (env : Env) (w : World) where
  -- Whether a name and a password are good: the operator's handler decides alone, and without one
  -- there is an account of that name whose password it is.
  abbrev may_enter : Bytes → Bytes → Bool
  may_enter username password =
      if env.plugin.has_handler auth_sasl_plain
      then is_accepted (
          env.plugin.on_auth
            (record { username = username; password = password; cancelled = false; reason = [] }))
      else not (is_null (get_by_name username w))
        && env.validate_password password (w.account_at (get_by_name username w)).password

  -- The name that a request logs in, if it does.
  abbrev pub entrant : (Bytes → Option (Bytes → Bytes)) → LoginRequest → LoginState → Option Bytes
  entrant read_object r s =
      if not (is_allowed (check r.ip r.now r.later s.limiter).1)
      then none
      else elim (read_object r.body) [
        | none ↦ none
        | some object ↦
            (if may_enter (object (codes "username")) (object (codes "password"))
              then some (object (codes "username"))
              else none)
      ]

  -- A login opens one session, under the name that is given, exactly if the limiter lets the
  -- address pass, the body is an object, and name and password are good. Else no session changes.
  pub login_lem :
      (read_object : Bytes → Option (Bytes → Bytes)) (r : LoginRequest) (s : LoginState)
      → let (after, answer) = login env read_object w r s in
        let who = entrant read_object r s in
        (after.limiter ≡ (check r.ip r.now r.later s.limiter).0)
        × (after.sessions ≡ elim who [
          | none ↦ s.sessions
          | some name ↦ create_session r.token name session_ttl r.session_now s.sessions
        ])
        × (is_success answer ≡ (elim who [ none ↦ false | some name ↦ true ]))
        × ((token : Bytes) → answer ≡ logged_in token → token ≡ r.token)
  unfolding login check_credentials open_session
  login_lem read_object r s = ground arith
