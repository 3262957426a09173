-- ===== src/Irc/Login.antt =====
-- irc/client_connection.cpp: `handleAUTHENTICATE`, the SASL login.
use chatripper.Common.{
  ℕ, true, false, not, Option, none, some, List, [], ◌∷◌, ◌++◌, Bytes, codes, is_empty, split,
  if◌then◌else◌, bytes_key, ◌==◌,
}
use chatripper.State.{World, is_null, set_connection}
use chatripper.Env.{Env}
use chatripper.Core.Caches.{get_by_name}
use chatripper.Core.Accounts.{merge, verify_password}
use chatripper.Irc.Reply.{send_raw, reply_num, force_disconnect}

module _ (env : Env) where
  abbrev failed : Bytes
  failed = codes "SASL authentication failed"

  -- The account takes over the connection, or is merged with the one that the connection has.
  unfoldable log_in : ℕ → ℕ → Bytes → World → World
  unfolding merge reply_num
  log_in c account username w =
      let conn = w.connection_at c in
      let v =
        if is_null conn.account
        then set_connection c (record conn { account = account }) w
        else merge account conn.account w in
      let u =
        reply_num env c 903 (codes "SASL authentication successful")
          (reply_num env c 900 (codes "You are now logged in as " ++ username) v) in
      set_connection c (record (u.connection_at c) { logged_in = true }) u

  unfoldable authenticate : ℕ → Bytes → Bytes → World → World
  unfolding get_by_name verify_password log_in reply_num force_disconnect
  authenticate c username password w =
      let account = get_by_name username w in
      let auth =
        verify_password env (w.account_at account)
          (record { username = username; password = password; cancelled = false; reason = [] }) in
      if is_null account
      then force_disconnect c (reply_num env c 900 failed w)
      else if not auth.cancelled
      then log_in c account username w
      else force_disconnect c (
          reply_num env c 900
            (if is_empty auth.reason then failed else failed ++ (codes ": " ++ auth.reason)) w)

  -- The three fields of a PLAIN response: authorization identity, user name, password.
  unfoldable plain_fields : Bytes → Option (Bytes × Bytes)
  plain_fields arg = elim (split 0 (env.from_base64 arg)) [
    | _ ∷ username ∷ password ∷ [] ↦ some (username, password)
    | _ ↦ none
  ]

  unfoldable pub handle_authenticate : ℕ → List Bytes → World → World
  unfolding send_raw reply_num force_disconnect authenticate plain_fields
  handle_authenticate c [] w = force_disconnect c (send_raw env c (codes "uwot?") w)
  handle_authenticate c (arg ∷ _) w =
      if arg == codes "PLAIN"
      then send_raw env c (codes "AUTHENTICATE +") w
      else elim (plain_fields arg) [
        | none ↦ reply_num env c 900 failed w
        | some (username, password) ↦ authenticate c username password w
      ]
