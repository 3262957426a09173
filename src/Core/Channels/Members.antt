-- ===== src/Core/Channels/Members.antt =====
-- Who is in a channel after `join` and `part`, and who is told.
use chatripper.Common.{
  ℕ, ◌≡◌, refl, ap, ◌∙◌, sym, Bool, true, false, not, Option, none, some, List, [], ◌∷◌, ◌++◌, map,
  append_assoc, append-nil, contains, remove_all, if◌then◌else◌, arith, nat_key, bytes_key, nat_eqb,
  beq_self, if_both, has_key,
}
use chatripper.State.{
  Account, Channel, World, JoinEvent, PartEvent, Call, call_part, is_null, post, for_each,
  set_channel,
}
use chatripper.Env.{Env}
use chatripper.Core.Caches.{get_channel}
use chatripper.Core.Channels.{
  broadcast, part, part_member, join, consult_part, consult_join, add_member, join_connections,
  join_members, touch_members, told_join, join_event,
}
use chatripper.Irc.Notify
use chatripper.Irc.Notify.{note_join, enter_channel, send_topic, send_names, members_of}
use chatripper.Irc.Reply.{reply_self, send_raw, reply_num}

-- The connections of a list of accounts, in order.
unfoldable pub all_connections : (ℕ → Account) → List ℕ → List ℕ
all_connections account_at [] = []
all_connections account_at (a ∷ rest) =
    (account_at a).connections ++ all_connections account_at rest

map-append : (f : ℕ → Call) (xs ys : List ℕ) → map f (xs ++ ys) ≡ map f xs ++ map f ys
map-append f [] ys = refl
map-append f (x ∷ xs) ys = ap (λ l. f x ∷ l) (map-append f xs ys)

abbrev posting : List Call → World → World
posting calls w = record w { posted = w.posted ++ calls }

posting-posting : (xs ys : List Call) (w : World) → posting ys (posting xs w) ≡ posting (xs ++ ys) w
posting-posting xs ys w = ap (λ l. record w { posted = l }) (append_assoc w.posted xs ys)

posting-nil : (w : World) → posting [] w ≡ w
posting-nil w = ap (λ l. record w { posted = l }) (append-nil w.posted)

post_each :
    (call : ℕ → Call) (cs : List ℕ) (w : World)
    → for_each cs (λ c u. post (call c) u) w ≡ posting (map call cs) w
unfolding for_each
post_each call [] w = sym (posting-nil w)
post_each call (c ∷ cs) w =
    post_each call cs (post (call c) w) ∙ posting-posting (call c ∷ []) (map call cs) w

pub broadcast_lem :
    (call : ℕ → Call) (members : List ℕ) (w : World)
    → broadcast call members w ≡ posting (map call (all_connections w.account_at members)) w
unfolding broadcast for_each all_connections
broadcast_lem call [] w = sym (posting-nil w)
broadcast_lem call (a ∷ rest) w =
    let own = (w.account_at a).connections in
    ap (λ v. broadcast call rest v) (post_each call own w)
    ∙ (broadcast_lem call rest (posting (map call own) w)
        ∙ (posting-posting (map call own) (map call (all_connections w.account_at rest)) w
            ∙ ap (λ l. posting l w)
                (sym (map-append call own (all_connections w.account_at rest)))))

-- The channel without the account, and a call for each connection of each member.
abbrev pub parted : ℕ → PartEvent → World → World
parted ch ev w =
    let channel = w.channel_at ch in
    set_channel ch (record channel { members = remove_all channel.members ev.account })
      (record w {
        posted =
            w.posted ++ map (λ c. call_part c ev) (all_connections w.account_at channel.members);
      })

-- What `part` does on each branch: `kept` is the event as the modules left it, and `none` if they
-- cancelled it.
abbrev pub part_result : ℕ → Option PartEvent → World → Bool × World
part_result ch none w = (false, w)
part_result ch (some kept) w =
    if contains (w.channel_at ch).members kept.account then (true, parted ch kept w) else (false, w)

if_not {ℓ} :
    {A : Type ℓ} (b : Bool) (x y z : A) → y ≡ z → (if not b then x else y) ≡ (if b then z else x)
if_not true x y z e = e
if_not false x y z e = refl

part_member_lem :
    (ch : ℕ) (ev : PartEvent) (w : World) → part_member ch ev w ≡ part_result ch (some ev) w
unfolding part_member
part_member_lem ch ev w =
    let channel = w.channel_at ch in
    if_not (contains channel.members ev.account) (false, w) _ (true, parted ch ev w)
      (ap
        (λ v. (
          true,
          set_channel ch (record channel { members = remove_all channel.members ev.account }) v,
        ))
        (broadcast_lem (λ c. call_part c ev) channel.members w))

-- `part` succeeds exactly if no module cancels it and the account is a member; then every
-- connection of every member, the one that leaves included, is posted the event once, in the order
-- of the members, and the account is a member no more. Otherwise nothing changes.
pub part_lem :
    (env : Env) (ch : ℕ) (ev : PartEvent) (w : World)
    → part env ch ev w ≡ part_result ch (consult_part env ev) w
unfolding part
part_lem env ch ev w =
    elim (consult_part env ev)
      as (λ o.
        (elim o [ none ↦ (false, w) | some kept ↦ part_member ch kept w ]) ≡ part_result ch o w) [
          | none ↦ refl
          | some kept ↦ part_member_lem ch kept w
        ]

-- What `channel_join` does to the channels: nothing.
abbrev rooms : World → ℕ → Channel
rooms w = w.channel_at

send_topic-rooms : (env : Env) (c ch : ℕ) (w : World) → rooms (send_topic env c ch w) ≡ rooms w
unfolding send_topic send_raw reply_num
send_topic-rooms env c ch w = if_both (λ v. rooms v ≡ rooms w) _ refl refl

enter_channel-rooms :
    (env : Env) (c : ℕ) (ev : JoinEvent) (w : World) → rooms (enter_channel env c ev w) ≡ rooms w
unfolding enter_channel send_names send_raw reply_self
enter_channel-rooms env c ev w =
    if_both (λ v. rooms v ≡ rooms w) _ refl (send_topic-rooms env c ev.channel _)

channel_join-rooms :
    (env : Env) (c : ℕ) (ev : JoinEvent) (w : World)
    → rooms (Notify.channel_join env c ev w) ≡ rooms w
unfolding Notify.channel_join note_join
channel_join-rooms env c ev w =
    let told = note_join env c ev w in
    let entered = enter_channel env c ev w in
    let other = not (nat_eqb ev.account (w.connection_at c).account) in
    if_both (λ v. rooms v ≡ rooms w) (is_null ev.channel) {x = w}
      {y = if other then told else entered} refl
      (if_both (λ v. rooms v ≡ rooms w) other {x = told} {y = entered} refl
        (enter_channel-rooms env c ev w))

for_each-keeps {ℓ} :
    {B : Type ℓ} (view : World → B) (f : ℕ → World → World)
    → ((x : ℕ) (w : World) → view (f x w) ≡ view w)
    → (xs : List ℕ) (w : World) → view (for_each xs f w) ≡ view w
unfolding for_each
for_each-keeps view f keeps [] w = refl
for_each-keeps view f keeps (x ∷ xs) w = for_each-keeps view f keeps xs (f x w) ∙ keeps x w

pub join_connections-rooms :
    (env : Env) (ch : ℕ) (ev : JoinEvent) (w : World)
    → rooms (join_connections env ch ev w) ≡ rooms w
unfolding join_connections
join_connections-rooms env ch ev w =
    for_each-keeps rooms _
      (λ c v.
        if_both (λ u. rooms u ≡ rooms v)
          (has_key (v.channel_at ch).name (v.connection_at c).channels) {x = v}
          {y = Notify.channel_join env c ev v} refl (channel_join-rooms env c ev v))
      (w.account_at ev.account).connections w

touch_members-rooms : (c own : ℕ) (w : World) → rooms (touch_members c own w) ≡ rooms w
unfolding touch_members
touch_members-rooms c own w =
    if_both (λ v. rooms v ≡ rooms w) (has_key own (w.connection_at c).channel_members) {x = w} refl
      refl

pub join_members-rooms :
    (env : Env) (ch own : ℕ) (ev : JoinEvent) (w : World)
    → rooms (join_members env ch own ev w) ≡ rooms w
unfolding join_members
join_members-rooms env ch own ev w =
    for_each-keeps rooms _
      (λ a v.
        if_both (λ u. rooms u ≡ rooms v)
          (nat_eqb (v.account_at a).uid (v.account_at ev.account).uid) {x = v}
          {y = for_each (v.account_at a).connections (told_join env own ev) v} refl
          (for_each-keeps rooms (told_join env own ev)
            (λ c u.
              if_both (λ t. rooms t ≡ rooms u)
                (contains (members_of own (u.connection_at c).channel_members) ev.account) {x = u}
                {y = Notify.channel_join env c ev (touch_members c own u)} refl
                (channel_join-rooms env c ev (touch_members c own u) ∙ touch_members-rooms c own u))
            (v.account_at a).connections v))
      (w.channel_at ch).members w

-- The members of a channel when one account has joined.
abbrev pub joined : List ℕ → ℕ → List ℕ
joined members a = if contains members a then members else members ++ a ∷ []

abbrev pub join_result : ℕ → Option JoinEvent → World → List ℕ
join_result ch none w = (w.channel_at ch).members
join_result ch (some kept) w = joined (w.channel_at ch).members kept.account

add_member-members :
    (env : Env) (ch own a : ℕ) (w : World)
    → (rooms (add_member env ch own a w) ch).members ≡ joined (w.channel_at ch).members a
unfolding add_member
add_member-members env ch own a w = ground (arith, beq_self ch)

join_event-members :
    (env : Env) (ch : ℕ) (ev : JoinEvent) (w : World)
    → (rooms (join_event env ch ev w) ch).members ≡ joined (w.channel_at ch).members ev.account
unfolding join_event
join_event-members env ch ev w =
    let own = get_channel (w.channel_at ch).name w in
    let added = add_member env ch own ev.account w in
    ap (λ r. (r ch).members)
      (join_members-rooms env ch own ev (join_connections env ch ev added)
        ∙ join_connections-rooms env ch ev added)
    ∙ add_member-members env ch own ev.account w

-- `join` makes the account a member of the channel unless a module cancels the event; a member is
-- not entered twice, and whatever the connections are told on the way leaves the members alone.
pub join-members :
    (env : Env) (ch : ℕ) (ev : JoinEvent) (w : World)
    → ((join env ch ev w).channel_at ch).members ≡ join_result ch (consult_join env ev) w
unfolding join
join-members env ch ev w =
    elim (consult_join env ev)
      as (λ o.
        ((elim o as (λ _. World) [ none ↦ w | some kept ↦ join_event env ch kept w ]).channel_at
          ch).members
        ≡ join_result ch o w) [ none ↦ refl | some kept ↦ join_event-members env ch kept w ]
