-- ===== src/Core/Accounts/Nicks.antt =====
-- The registry of nicknames after `setNick`.
use chatripper.Common.{
  ℕ, ◌≡◌, refl, ap, ◌∙◌, Bool, true, false, Option, none, some, [], ◌∷◌, Bytes, to_lower,
  if◌then◌else◌, arith, remove, not, ◌&&◌, ◌||◌, nat_eqb, is_empty, find-insert, find-remove,
  bytes_key, nat_key, ◌==◌,
}
use chatripper.State.{is_null, World, NickEvent, set_account, call_nick}
use chatripper.Env.{Env}
use chatripper.Core.Caches.{irc_nick_get, get_by_uid}
use chatripper.Core.Channels.Members.{broadcast_lem}
use chatripper.Core.Accounts.{set_nick, consult_nick, move_nick, can_take, take_nick, audience}

-- The registry as `setNick` leaves it.
irc_nick_get-move_nick :
    (env : Env) (self : ℕ) (ev : NickEvent) (other : Bytes) (w : World)
    → irc_nick_get other (move_nick env self ev w) ≡ (
        if to_lower ev.new_nick == other
        then self
        else if ev.old_nick == other
        then 0
        else irc_nick_get other w)
unfolding irc_nick_get move_nick
irc_nick_get-move_nick env self ev other w = ground (
  arith,
  find-insert (to_lower ev.new_nick) other self (remove ev.old_nick w.irc_nicks),
  find-remove ev.old_nick other w.irc_nicks,
)

-- A fact about each branch of a pair chosen by a test.
if_match :
    (other : Bytes) (b : Bool) (v w : World) (n : ℕ)
    → irc_nick_get other v ≡ n
    → irc_nick_get other (if◌then◌else◌ {A = Bool × World} b (true, v) (false, w)).1
      ≡ (if b then n else irc_nick_get other w)
if_match other true v w n h = h
if_match other false v w n h = refl

irc_nick_get-take_nick :
    (env : Env) (a : ℕ) (ev : NickEvent) (other : Bytes) (w : World)
    → irc_nick_get other (take_nick env a ev w)
      ≡ irc_nick_get other (move_nick env (get_by_uid (w.account_at a).uid w) ev w)
unfolding take_nick irc_nick_get
irc_nick_get-take_nick env a ev other w =
    let moved = move_nick env (get_by_uid (w.account_at a).uid w) ev w in
    let named = set_account a (record (moved.account_at a) { nick = ev.new_nick }) moved in
    ap (irc_nick_get other) (
      broadcast_lem (λ c. call_nick c ev)
        (audience (named.account_at a).channels (get_by_uid (w.account_at a).uid w ∷ []) named)
        named)

-- The account that `setNick` acts for.
abbrev self_of : ℕ → World → ℕ
self_of a w = get_by_uid (w.account_at a).uid w

-- The new nickname is not empty, the account is known, and nobody else holds the nickname.
abbrev is_free_for : ℕ → Bytes → World → Bool
is_free_for a name w =
    let holder = irc_nick_get (to_lower name) w in
    not (is_empty name)
    && not (is_null (self_of a w))
    && (is_null holder || nat_eqb holder (self_of a w))

can_take_lem :
    (env : Env) (a : ℕ) (ev : NickEvent) (w : World)
    → can_take env a ev w ≡ is_free_for a ev.new_nick w
unfolding can_take
can_take_lem env a ev w = ground arith

-- The holder of each nickname after `setNick`; `kept` is the event as the modules left it.
abbrev pub holder_after : Env → ℕ → Option NickEvent → Bytes → World → ℕ
holder_after env a none other w = irc_nick_get other w
holder_after env a (some kept) other w =
    if is_free_for a kept.new_nick w
    then (if to_lower kept.new_nick == other
        then self_of a w
        else if kept.old_nick == other
        then 0
        else irc_nick_get other w)
    else irc_nick_get other w

-- A change of nickname that no module cancels registers the new nickname, in lower case, for the
-- account and drops the old one, but only under the spelling of the old one, if the new nickname is
-- not empty, the account is known, and no other account holds the nickname; every other entry
-- stays. A change that fails leaves the registry as it was.
pub set_nick-registry :
    (env : Env) (a : ℕ) (ev : NickEvent) (other : Bytes) (w : World)
    → irc_nick_get other (set_nick env a ev w).1 ≡ holder_after env a (consult_nick env ev) other w
unfolding set_nick
set_nick-registry env a ev other w =
    elim (consult_nick env ev)
      as (λ o.
        irc_nick_get other
          (elim o as (λ _. Bool × World) [
            | none ↦ (false, w)
            | some kept ↦
                if can_take env a kept w then (true, take_nick env a kept w) else (false, w)
          ]).1
        ≡ holder_after env a o other w) [
          | none ↦ refl
          | some kept ↦
              if_match other (can_take env a kept w) _ w _ (
                irc_nick_get-take_nick env a kept other w
                ∙ irc_nick_get-move_nick env (self_of a w) kept other w)
              ∙ ap
                  (λ b.
                    if b
                    then (if to_lower kept.new_nick == other
                        then self_of a w
                        else if kept.old_nick == other
                        then 0
                        else irc_nick_get other w)
                    else irc_nick_get other w)
                  (can_take_lem env a kept w)
        ]
