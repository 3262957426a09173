-- ===== src/Core/Accounts.antt =====
-- core/account.cpp: the operations of an account.
pub mod Access
pub mod Nicks
use chatripper.Common.{
  ℕ, ◌+◌, Bool, true, false, not, ◌&&◌, Option, none, some, List, [], ◌∷◌, ◌++◌, Bytes, codes,
  is_empty, remove_all, to_lower, nat_eqb, if◌then◌else◌, Map, find, insert, remove, nat_key,
  bytes_key,
}
use chatripper.State.{
  Account, Channel, World, Message, to_account, to_channel, NickEvent, call_nick, is_null, update,
  set_account, for_each, add_all_to_set, post,
}
use chatripper.Env.{
  Env, AuthEvent, private_msg, tag_msg, nick_change, auth_sasl_plain, converted, message_event,
  nick_event,
}
use chatripper.Core.Caches.{
  get_by_uid, get_by_name, irc_nick_get, irc_nicks_remove_cache, irc_nicks_insert_cache,
  account_insert_cache, account_remove_cache,
}
use chatripper.Core.Channels.{is_cancelled, broadcast}
use chatripper.Irc.Notify
use chatripper.Irc.Messages
use chatripper.Irc.Reply.{account_nick}

-- `is_logged_in`
unfoldable is_logged_in : ℕ → World → Bool
is_logged_in a w = not (is_empty (w.account_at a).name)

unfoldable pub add_connection : ℕ → ℕ → World → World
add_connection a c w =
    let acc = w.account_at a in
    set_account a (record acc { connections = acc.connections ++ c ∷ [] }) w

unfoldable clear_connections : ℕ → World → World
clear_connections a w = set_account a (record (w.account_at a) { connections = [] }) w

-- The account `a` consumes the account `from` and adopts its connections.
unfoldable pub merge : ℕ → ℕ → World → World
unfolding is_logged_in add_connection clear_connections for_each account_remove_cache
merge a from w =
    if is_logged_in from w
    then w
    else account_remove_cache from (
        clear_connections from
          (for_each (w.account_at from).connections (λ c v. add_connection a c v) w))

-- `onConnectionDisconnected`
unfoldable pub on_connection_disconnected : ℕ → ℕ → Bytes → World → World
unfolding is_logged_in irc_nicks_remove_cache get_by_uid account_remove_cache
on_connection_disconnected a c nick w =
    let acc = w.account_at a in
    let left = set_account a (record acc { connections = remove_all acc.connections c }) w in
    if is_logged_in a left
    then left
    else let unnamed = irc_nicks_remove_cache nick left in
      account_remove_cache (get_by_uid acc.uid unnamed) unnamed

-- The accounts that hear of a new nickname: the account, and the members of its channels.
unfoldable pub audience : List (Bytes × ℕ) → List ℕ → World → List ℕ
unfolding add_all_to_set
audience [] l w = l
audience ((name, ch) ∷ rest) l w = audience rest (add_all_to_set (w.channel_at ch).members l) w

module _ (env : Env) where
  -- The constructor.
  unfoldable pub new_account : Bytes → Account
  new_account name = record {
    uid = 0;
    name = name;
    nick = name;
    password = [];
    host = env.default_host;
    connections = [];
    channels = [];
  }

  -- `create`
  unfoldable pub create : World → ℕ × World
  unfolding new_account
  create w = (
    w.next_account,
    record w {
      account_at = update w.account_at w.next_account (new_account []);
      next_account = w.next_account + 1;
    },
  )

  -- `create_from_db`, less the date
  unfoldable pub account_from_db : ℕ → Bytes → Bytes → World → ℕ × World
  unfolding new_account get_by_name account_insert_cache irc_nicks_insert_cache account_nick
  account_from_db id name password w =
      let p = get_by_name name w in
      if not (is_null p)
      then (p, w)
      else let made = record w {
        account_at =
            update w.account_at w.next_account
              (record (new_account name) { uid = id; password = password });
        next_account = w.next_account + 1;
      } in
        let cached = account_insert_cache w.next_account made in
        (
          w.next_account,
          irc_nicks_insert_cache (account_nick w.next_account cached) w.next_account cached,
        )

  -- `verifyPassword`; a handler of the operator decides if there is one, and bcrypt if not.
  unfoldable pub verify_password : Account → AuthEvent → AuthEvent
  verify_password acc auth =
      if is_empty auth.password
      then record auth { reason = codes "password cannot be empty"; cancelled = true }
      else if is_empty acc.password
      then record auth { reason = codes "password cannot be empty"; cancelled = true }
      else if env.plugin.has_handler auth_sasl_plain
      then elim (env.plugin.on_auth auth) [
        | some answer ↦ answer
        | none ↦ record auth { reason = codes "application error"; cancelled = true }
      ]
      else if env.validate_password auth.password acc.password
      then record auth { reason = []; cancelled = false }
      else record auth { reason = codes "bad password"; cancelled = true }

  abbrev pub consult_nick : NickEvent → Option NickEvent
  consult_nick ev =
      if env.plugin.has_handler nick_change
      then (let (changed, result) = env.plugin.on_nick ev in
          if is_cancelled (converted nick_event result) then none else some changed)
      else some ev

  -- The registry of nicknames after a change.
  unfoldable pub move_nick : ℕ → NickEvent → World → World
  move_nick self ev w = record w {
    irc_nicks = insert (to_lower ev.new_nick) self (remove ev.old_nick w.irc_nicks);
  }

  -- The tests of `setNick`: the new nickname is not empty, the account is known, and no other
  -- account holds the nickname, which is looked up in lower case.
  unfoldable pub can_take : ℕ → NickEvent → World → Bool
  unfolding get_by_uid irc_nick_get
  can_take a ev w =
      let self = get_by_uid (w.account_at a).uid w in
      let holder = irc_nick_get (to_lower ev.new_nick) w in
      if is_empty ev.new_nick
      then false
      else if is_null self
      then false
      else if not (is_null holder) && not (nat_eqb holder self)
      then false
      else true

  -- The registry, the account, and those who are told.
  unfoldable pub take_nick : ℕ → NickEvent → World → World
  unfolding get_by_uid move_nick audience broadcast
  take_nick a ev w =
      let self = get_by_uid (w.account_at a).uid w in
      let moved = move_nick self ev w in
      let named = set_account a (record (moved.account_at a) { nick = ev.new_nick }) moved in
      broadcast (λ c. call_nick c ev) (audience (named.account_at a).channels (self ∷ []) named)
        named

  -- `setNick`
  unfoldable pub set_nick : ℕ → NickEvent → World → Bool × World
  unfolding converted can_take take_nick
  set_nick a ev w = elim (consult_nick ev) [
    | none ↦ (false, w)
    | some kept ↦ if can_take a kept w then (true, take_nick a kept w) else (false, w)
  ]

  -- An answer that is no event lets the message pass, unlike that of a channel.
  abbrev pub consult_message : Message → Option Message
  consult_message m =
      let kind = if m.tag_msg then tag_msg else private_msg in
      if env.plugin.has_handler kind
      then (let (changed, result) = env.plugin.on_message kind m in
          if is_cancelled (converted message_event result) then none else some changed)
      else some m

  abbrev dest_connections : Message → World → List ℕ
  dest_connections m w = elim m.target [
    | to_account dest ↦ (w.account_at dest).connections
    | to_channel ch ↦ []
  ]

  -- `message`, called for the account of the sender
  unfoldable pub private_message : ℕ → Message → World → World
  unfolding converted for_each Messages.message
  private_message a m w = elim (consult_message m) [
    | none ↦ w
    | some m ↦
        for_each (w.account_at a).connections (λ c v. Messages.message c m v)
          (for_each (dest_connections m w) (λ c v. Messages.message c m v) w)
  ]
