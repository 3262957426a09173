-- ===== src/Core/Channels/Rename.antt =====
-- core/channel.cpp: `rename`, and the table of channels after it.
use chatripper.Common.{
  ℕ, ◌<◌, ◌||◌, Bool-cases, inl, inr, ◌≡◌, refl, ap, ◌∙◌, Bool, true, false, Option, none, some,
  ◌++◌, map, Bytes, if◌then◌else◌, arith, nat_key, beq_self, find, insert, find-insert, bytes_key,
  ◌==◌, sym, subst,
}
use chatripper.State.{RenameEvent, World, call_rename, is_null, set_channel}
use chatripper.Env.{
  Env, Returned, returned, no_event, channel_rename, join_event, part_event, message_event,
  rename_event, nick_event, auth_event, converted,
}
use chatripper.Core.Caches.{get_channel}
use chatripper.Core.Channels.{
  rename, broadcast, consult_rename, is_cancelled, get_or_create, add_channel, new_channel,
}
use chatripper.Core.Channels.Members.{all_connections, broadcast_lem}

-- The channel that the table has under the name of the event's channel.
abbrev pub renamed_channel : RenameEvent → World → ℕ
renamed_channel ev w = get_channel (w.channel_at ev.channel).name w

-- The channel with its new name, and a call for each connection of each member.
abbrev pub with_name : ℕ → RenameEvent → World → World
with_name from ev w =
    set_channel from (record (w.channel_at from) { name = ev.new_name })
      (record w {
        posted =
            w.posted
            ++ map (λ c. call_rename c ev)
                (all_connections w.account_at (w.channel_at ev.channel).members);
      })

abbrev rename_result : RenameEvent → Option RenameEvent → World → Bool × World
rename_result ev none w = (false, w)
rename_result ev (some kept) w =
    if ev.old_name == ev.new_name
    then (false, w)
    else if is_null (renamed_channel ev w)
    then (false, w)
    else (true, with_name (renamed_channel ev w) kept w)

named-members :
    (p q : ℕ) (name : Bytes) (w : World)
    → ((set_channel p (record (w.channel_at p) { name = name }) w).channel_at q).members
      ≡ (w.channel_at q).members
named-members p q name w = ground arith

announce_lem :
    (from : ℕ) (ev : RenameEvent) (w : World)
    → (let renamed = set_channel from (record (w.channel_at from) { name = ev.new_name }) w in
        broadcast (λ c. call_rename c ev) (renamed.channel_at ev.channel).members renamed)
      ≡ with_name from ev w
announce_lem from ev w =
    let renamed = set_channel from (record (w.channel_at from) { name = ev.new_name }) w in
    ap (λ l. broadcast (λ c. call_rename c ev) l renamed)
      (named-members from ev.channel ev.new_name w)
    ∙ broadcast_lem (λ c. call_rename c ev) (w.channel_at ev.channel).members renamed

same_branches {ℓ} : {A : Type ℓ} (a b : Bool) (x : A) → (if a then x else if b then x else x) ≡ x
same_branches a b x = ground arith

-- What `rename` comes to, by what `consult_rename` makes of the event.
rename-consulted :
    (env : Env) (ev : RenameEvent) (w : World)
    → rename env ev w ≡ rename_result ev (consult_rename env ev) w
unfolding rename
rename-consulted env ev w =
    let same = ev.old_name == ev.new_name in
    let from = renamed_channel ev w in
    elim (consult_rename env ev)
      as (λ o.
        (if same
          then (false, w)
          else if is_null from
          then (false, w)
          else elim o as (λ _. Bool × World) [
            | none ↦ (false, w)
            | some kept ↦ (
              true,
              (let renamed =
                    set_channel from (record (w.channel_at from) { name = kept.new_name }) w in
                  broadcast (λ c. call_rename c kept) (renamed.channel_at kept.channel).members
                    renamed),
            )
          ])
        ≡ rename_result ev o w) [
          | none ↦ same_branches same (is_null from) (false, w)
          | some kept ↦
              ap (λ v. if same then (false, w) else if is_null from then (false, w) else (true, v))
                (announce_lem from kept w)
        ]

-- The answers of the modules that stop a renaming: a cancelled change of a nickname.
abbrev pub stops : Returned → Bool
stops (returned nick_event cancelled) = cancelled
stops _ = false

-- The event as the modules left it, and whether they stopped it.
abbrev pub asked : Env → RenameEvent → RenameEvent × Bool
asked env ev =
    if env.plugin.has_handler channel_rename
    then ((env.plugin.on_rename ev).0, stops (env.plugin.on_rename ev).1)
    else (ev, false)

is_cancelled-stops : (r : Returned) → is_cancelled (converted nick_event r) ≡ stops r
unfolding converted
is_cancelled-stops (returned join_event b) = refl
is_cancelled-stops (returned part_event b) = refl
is_cancelled-stops (returned message_event b) = refl
is_cancelled-stops (returned rename_event b) = refl
is_cancelled-stops (returned nick_event true) = refl
is_cancelled-stops (returned nick_event false) = refl
is_cancelled-stops (returned auth_event b) = refl
is_cancelled-stops no_event = refl

consult_rename-asked :
    (env : Env) (ev : RenameEvent)
    → consult_rename env ev ≡ (if (asked env ev).1 then none else some (asked env ev).0)
consult_rename-asked env ev = elim (Bool-cases (env.plugin.has_handler channel_rename)) [
  | inl handled ↦ rw handled (
      ap (λ b. if b then none else some (env.plugin.on_rename ev).0)
        (is_cancelled-stops (env.plugin.on_rename ev).1))
  | inr unhandled ↦ rw unhandled refl
]

stopped_lem {ℓ} : {A : Type ℓ} (a b : Bool) (x y : A) → x ≡ (if a || b || true then x else y)
stopped_lem a b x y = ground arith

passed_lem {ℓ} :
    {A : Type ℓ} (a b : Bool) (x y : A)
    → (if a then x else if b then x else y) ≡ (if a || b || false then x else y)
passed_lem a b x y = ground arith

-- `rename` succeeds exactly if the two names of the event differ, the table of channels has the name
-- of the event's channel, and no module answers with a cancelled NickChange. Then the channel that the
-- table has there takes the new name, and every connection of every member is posted the event once, in
-- the order of the members. Otherwise nothing changes. In no case is the table of channels touched.
-- Any other answer, a cancelled ChannelRename among them, stops nothing.
pub rename_lem :
    (env : Env) (ev : RenameEvent) (w : World)
    → rename env ev w ≡ (
        if ev.old_name == ev.new_name || is_null (renamed_channel ev w) || (asked env ev).1
        then (false, w)
        else (true, with_name (renamed_channel ev w) (asked env ev).0 w))
rename_lem env ev w =
    rename-consulted env ev w
    ∙ (ap (λ o. rename_result ev o w) (consult_rename-asked env ev)
        ∙ branches (asked env ev).1 (asked env ev).0)
  where
    branches :
        (stopped : Bool) (kept : RenameEvent)
        → rename_result ev (if stopped then none else some kept) w ≡ (
            if ev.old_name == ev.new_name || is_null (renamed_channel ev w) || stopped
            then (false, w)
            else (true, with_name (renamed_channel ev w) kept w))
    branches true kept =
        stopped_lem (ev.old_name == ev.new_name) (is_null (renamed_channel ev w)) _ _
    branches false kept =
        passed_lem (ev.old_name == ev.new_name) (is_null (renamed_channel ev w)) _ _

-- The last branch was taken.
last_branch {ℓ} :
    {A : Type ℓ} (a b : Bool) (x y : Bool × A)
    → x.0 ≡ false
    → (if a then x else if b then x else y).0 ≡ true
    → ((if a then x else if b then x else y) ≡ y) × (b ≡ false)
last_branch a b x y f t = ground arith

succeeded :
    (env : Env) (ev kept : RenameEvent) (w : World)
    → consult_rename env ev ≡ some kept
    → (rename env ev w).0 ≡ true
    → (rename env ev w ≡ (true, with_name (renamed_channel ev w) kept w))
      × (is_null (renamed_channel ev w) ≡ false)
succeeded env ev kept w h t =
    let whole = rename-consulted env ev w ∙ ap (λ o. rename_result ev o w) h in
    let (last, there) =
      last_branch (ev.old_name == ev.new_name) (is_null (renamed_channel ev w)) (false, w)
        (true, with_name (renamed_channel ev w) kept w) refl (sym (ap (λ r. r.0) whole) ∙ t) in
    (whole ∙ last, there)

-- A free name is not one that the table has.
get_channel-insert :
    (free old : Bytes) (p : ℕ) (w : World)
    → find free w.channels ≡ none
    → is_null (get_channel old w) ≡ false
    → get_channel old (record w { channels = insert free p w.channels }) ≡ get_channel old w
unfolding get_channel
get_channel-insert free old p w h there =
    ground (arith, find-insert free old p w.channels, bytes_key.beq_iff free old)

get_or_create-free :
    (name : Bytes) (w : World)
    → find name w.channels ≡ none
    → get_or_create name w ≡ (w.next_channel, add_channel name (new_channel name) w)
unfolding get_or_create
get_or_create-free name w h =
    ap
      (λ o. (elim o as (λ _. ℕ × World) [
        | some p ↦ (p, w)
        | none ↦ (w.next_channel, add_channel name (new_channel name) w)
      ]))
      h

fork :
    (from : ℕ) (ev : RenameEvent) (old : Bytes) (w : World)
    → find ev.new_name w.channels ≡ none
    → get_channel old w ≡ from
    → is_null from ≡ false
    → from < w.next_channel
    → (let after = add_channel ev.new_name (new_channel ev.new_name) (with_name from ev w) in
        ((after.channel_at w.next_channel).name ≡ ev.new_name)
        × ((after.channel_at from).name ≡ ev.new_name)
        × (get_channel old after ≡ from))
unfolding add_channel new_channel get_channel
fork from ev old w free found there made = (
  ground (arith, beq_self w.next_channel),
  ground (arith, beq_self from),
  get_channel-insert ev.new_name old w.next_channel (with_name from ev w) free
        (ap is_null found ∙ there)
      ∙ found,
)

-- The table keeps the old name. If a renaming succeeds to a name that was free, of a channel that was
-- made, then the next `get_or_create` of the new name makes another channel instead of finding the
-- renamed one: both have the new name then, and the old name still finds the renamed one.
pub rename_forks :
    (env : Env) (ev kept : RenameEvent) (w : World)
    → consult_rename env ev ≡ some kept
    → (rename env ev w).0 ≡ true
    → find kept.new_name w.channels ≡ none
    → renamed_channel ev w < w.next_channel
    → (let from = renamed_channel ev w in
        let (made, after) = get_or_create kept.new_name (rename env ev w).1 in
        (made ≡ w.next_channel)
        × ((after.channel_at made).name ≡ kept.new_name)
        × ((after.channel_at from).name ≡ kept.new_name)
        × (get_channel (w.channel_at ev.channel).name after ≡ from))
rename_forks env ev kept w h t free made =
    let (whole, there) = succeeded env ev kept w h t in
    let from = renamed_channel ev w in
    let next =
      ap (λ r. get_or_create kept.new_name r.1) whole
      ∙ get_or_create-free kept.new_name (with_name from kept w) free in
    let forked = fork from kept (w.channel_at ev.channel).name w free refl there made in
    subst
      (λ r.
        (r.0 ≡ w.next_channel)
        × ((r.1.channel_at r.0).name ≡ kept.new_name)
        × ((r.1.channel_at from).name ≡ kept.new_name)
        × (get_channel (w.channel_at ev.channel).name r.1 ≡ from))
      (sym next) (refl, forked.0, forked.1, forked.2)
