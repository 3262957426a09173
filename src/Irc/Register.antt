-- ===== src/Irc/Register.antt =====
-- irc/client_connection.cpp: PASS, NICK and USER.
use chatripper.Common.{
  ℕ, true, not, ◌&&◌, List, [], ◌∷◌, ◌++◌, Bytes, codes, is_empty, length, ltb, to_lower,
  if◌then◌else◌, bytes_key, ◌==◌,
}
use chatripper.Common.Outcome.{Outcome, done, fault, ◌>>=◌}
use chatripper.Bitflags
use chatripper.Modes.Setup as SetupTasks
use chatripper.Modes.Setup.{setup_task_flags}
use chatripper.State.{World, is_null, set_connection}
use chatripper.Env.{Env}
use chatripper.Lines.Nick.{is_valid_nick}
use chatripper.Core.Caches.{account_username_exists, irc_nick_get}
use chatripper.Core.Accounts.{set_nick}
use chatripper.Irc.Reply.{nick, reply_num}
use chatripper.Irc.Setup.{is_setup_done, try_finalize_setup, refuse}

module _ (env : Env) where
  unfoldable pub handle_pass : ℕ → List Bytes → World → World
  unfolding reply_num
  handle_pass c [] w = reply_num env c 461 (codes "PASS :Not enough parameters") w
  handle_pass c (password ∷ _) w =
      set_connection c (record (w.connection_at c) { pass_given = password }) w

  -- `setNick` of the connection throws if the connection has a nickname.
  unfoldable set_own_nick : ℕ → Bytes → World → Outcome World
  set_own_nick c new w =
      let conn = w.connection_at c in
      if is_empty conn.nick then done (set_connection c (record conn { nick = new }) w) else fault

  unfoldable pub finish_task : ℕ → SetupTasks.SetupTask → World → World
  finish_task c task w =
      let conn = w.connection_at c in
      set_connection c (record conn { setup_tasks = Bitflags.clear task conn.setup_tasks }) w

  -- NICK when the setup is done.
  unfoldable request_nick : ℕ → Bytes → World → World
  unfolding nick reply_num set_nick
  request_nick c new w =
      let own = nick c w in
      let a = (w.connection_at c).account in
      if new == own
      then reply_num env c 431 (codes "Your nick is already that") w
      else let (changed, v) =
          set_nick env a (record { account = a; old_nick = own; new_nick = new }) w in
        if changed then v else reply_num env c 433 new v

  unfoldable pub handle_nick : ℕ → List Bytes → World → Outcome World
  unfolding reply_num is_valid_nick irc_nick_get set_own_nick finish_task try_finalize_setup
      is_setup_done request_nick
  handle_nick c [] w = done (reply_num env c 431 (codes "No nickname given") w)
  handle_nick c (new ∷ _) w =
      let conn = w.connection_at c in
      if not (is_valid_nick env.is_letter env.is_number new)
      then done (reply_num env c 432 (new ++ codes " :Erroneous nickname") w)
      else if not (is_null conn.account) && not (is_null (irc_nick_get (to_lower new) w))
      then done (reply_num env c 433 new w)
      else if Bitflags.has SetupTasks.nick conn.setup_tasks
      then (set_own_nick c new w >>= λ v.
          try_finalize_setup env c (finish_task c SetupTasks.nick v))
      else if not (is_setup_done conn)
      then done (reply_num env c 432 (codes "Finish connect bootstrap first") w)
      else if is_null conn.account
      then fault
      else done (request_nick c new w)

  abbrev max_user_length : ℕ
  max_user_length = 16

  unfoldable pub handle_user : ℕ → List Bytes → World → Outcome World
  unfolding reply_num refuse account_username_exists finish_task try_finalize_setup
  handle_user c args w =
      let conn = w.connection_at c in
      if not (Bitflags.has SetupTasks.user conn.setup_tasks)
      then done (reply_num env c 461 (codes "USER :User already specified") w)
      else elim args [
        | name ∷ _ ∷ _ ∷ real ∷ _ ↦
            let v = set_connection c (record conn { user = name; realname = real }) w in
            if ltb max_user_length (length name)
            then done
                (refuse env c 461 (codes "USER :Your user is too long (more than 16 characters)") v)
            else let known =
                if account_username_exists name v
                then set_connection c (record (v.connection_at c) { user_already_exists = true }) v
                else v in
              try_finalize_setup env c (finish_task c SetupTasks.user known)
        | _ ↦ done (reply_num env c 461 (codes "USER :Not enough parameters") w)
      ]
