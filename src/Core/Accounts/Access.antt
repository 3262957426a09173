-- ===== src/Core/Accounts/Access.antt =====
-- Who may log in to an account, and what becomes of a guest's account.
use chatripper.Common.{
  ◌≡◌, Bool, false, not, ◌&&◌, Option, none, some, is_empty, if◌then◌else◌, arith,
}
use chatripper.State.{Account}
use chatripper.Env.{Env, AuthEvent, auth_sasl_plain}
use chatripper.Core.Accounts.{verify_password}

-- What a login takes: a handler of the operator that does not cancel, or the password of the
-- account. `decision` is the handler's answer.
abbrev pub is_accepted : Option AuthEvent → Bool
is_accepted none = false
is_accepted (some answer) = not answer.cancelled

abbrev pub may_log_in : Env → Account → AuthEvent → Bool
may_log_in env acc auth =
    not (is_empty auth.password)
    && not (is_empty acc.password)
    && (if env.plugin.has_handler auth_sasl_plain
        then is_accepted (env.plugin.on_auth auth)
        else env.validate_password auth.password acc.password)

-- A login is accepted exactly if neither password is empty and the operator's handler accepts it
-- or, without a handler, bcrypt finds that the password is the account's.
pub verify_password_lem :
    (env : Env) (acc : Account) (auth : AuthEvent)
    → (verify_password env acc auth).cancelled ≡ not (may_log_in env acc auth)
unfolding verify_password
verify_password_lem env acc auth = ground arith
