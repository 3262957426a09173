-- ===== src/Core/Channels.antt =====
-- core/channel.cpp: the operations of a channel.
pub mod Mode
pub mod Members
pub mod Delivery
pub mod Rename
use chatripper.Common.{
  ℕ, ◌+◌, Bool, true, false, not, ◌&&◌, Option, none, some, List, [], ◌∷◌, ◌++◌, Bytes, is_empty,
  contains, remove_all, nat_eqb, if◌then◌else◌, Map, find, insert, has_key, nat_key, bytes_key,
  ◌==◌,
}
use chatripper.Bitflags
use chatripper.Bitflags.{Flags, no_flags}
use chatripper.Modes.Channel as ChannelModes
use chatripper.Modes.Channel.{ChannelMode, channel_mode_flags}
use chatripper.State.{
  Account, Channel, Connection, World, Message, JoinEvent, PartEvent, RenameEvent, Call, call_part,
  call_rename, is_null, or_null, post, update, set_account, set_channel, set_connection, for_each,
}
use chatripper.Env.{
  Env, EventType, EventClass, channel_join, channel_part, channel_msg, tag_msg, channel_rename,
  converted, part_event, message_event, nick_event,
}
use chatripper.Core.Caches.{get_channel}
use chatripper.Irc.Notify
use chatripper.Irc.Messages
use chatripper.Irc.Notify.{members_of}

-- The constructor.
unfoldable pub new_channel : Bytes → Channel
new_channel name = record {
  uid = 0;
  name = name;
  topic = [];
  key = [];
  server = 0;
  owner = 0;
  members = [];
  ban_masks = [];
  limit = 0;
  channel_modes =
      Bitflags.set_each (ChannelModes.no_outside_msgs ∷ ChannelModes.topic_protected ∷ []) no_flags;
  write_locked = false;
}

unfoldable set_topic : Bytes → Channel → Channel
set_topic t ch = if ch.topic == t then ch else record ch { topic = t }

-- `new Channel`, and its entry in the table of channels.
unfoldable pub add_channel : Bytes → Channel → World → World
add_channel name ch w = record w {
  channel_at = update w.channel_at w.next_channel ch;
  next_channel = w.next_channel + 1;
  channels = insert name w.next_channel w.channels;
}

unfoldable pub get_or_create : Bytes → World → ℕ × World
unfolding add_channel new_channel
get_or_create name w = elim (find name w.channels) [
  | some p ↦ (p, w)
  | none ↦ (w.next_channel, add_channel name (new_channel name) w)
]

-- `create_from_db`, less the date; `owner` is null if there is none.
unfoldable pub create_from_db : ℕ → Bytes → Bytes → ℕ → ℕ → World → ℕ × World
unfolding add_channel new_channel set_topic
create_from_db id name topic owner server w = elim (find name w.channels) [
  | some p ↦ (p, w)
  | none ↦ (
    w.next_channel,
    add_channel name
        (set_topic topic (record (new_channel name) { uid = id; owner = owner; server = server }))
        w,
  )
]

-- `addMembers`; `g::ctx->channels[m_name]` adds a null entry if there is none.
unfoldable pub add_members : ℕ → List ℕ → World → World
add_members ch [] w = w
add_members ch (a ∷ rest) w =
    let channel = w.channel_at ch in
    let acc = w.account_at a in
    let own = or_null (find channel.name w.channels) in
    add_members ch rest
      (record (set_account a (record acc { channels = insert channel.name own acc.channels })
        (set_channel ch (record channel { members = channel.members ++ a ∷ [] }) w)) {
          channels =
              if has_key channel.name w.channels
              then w.channels
              else insert channel.name 0 w.channels;
        })

-- A handler's answer is a cancelled event of the class that the caller reads.
abbrev pub is_cancelled : Option Bool → Bool
is_cancelled none = false
is_cancelled (some b) = b

-- Posting a call to every connection of every member.
unfoldable pub broadcast : (ℕ → Call) → List ℕ → World → World
unfolding for_each
broadcast call members w =
    for_each members (λ a v. for_each (v.account_at a).connections (λ c u. post (call c) u) v) w

-- `channel_members[own]` adds an empty entry if there is none.
unfoldable pub touch_members : ℕ → ℕ → World → World
touch_members c own w =
    let conn = w.connection_at c in
    if has_key own conn.channel_members
    then w
    else set_connection c (record conn { channel_members = insert own [] conn.channel_members }) w

-- `part`, when the modules have had the event.
unfoldable pub part_member : ℕ → PartEvent → World → Bool × World
unfolding broadcast
part_member ch ev w =
    let channel = w.channel_at ch in
    if not (contains channel.members ev.account) then (false, w) else (
      true,
      set_channel ch (record channel { members = remove_all channel.members ev.account })
          (broadcast (λ c. call_part c ev) channel.members w),
    )

-- `message`, when the modules have had it.
unfoldable pub message_members : ℕ → Message → World → World
unfolding for_each Messages.message
message_members ch m w =
    for_each (w.channel_at ch).members
      (λ a v. for_each (v.account_at a).connections (λ c u. Messages.message c m u) v)
      (record w { stored = w.stored ++ m ∷ [] })

module _ (env : Env) where
  abbrev pub consult_part : PartEvent → Option PartEvent
  consult_part ev =
      if not ev.from_system && env.plugin.has_handler channel_part
      then (let (changed, result) = env.plugin.on_part ev in
          if is_cancelled (converted part_event result) then none else some changed)
      else some ev

  -- `part`; the Boolean is what it returns.
  unfoldable pub part : ℕ → PartEvent → World → Bool × World
  unfolding converted part_member
  part ch ev w = elim (consult_part ev) [ none ↦ (false, w) | some kept ↦ part_member ch kept w ]

  abbrev pub consult_join : JoinEvent → Option JoinEvent
  consult_join ev =
      if not ev.from_system && env.plugin.has_handler channel_join
      then (let (changed, result) = env.plugin.on_join ev in
          if is_cancelled (converted EventClass.join_event result) then none else some changed)
      else some ev

  -- The new member, if the account is not one yet; `own` is `get(m_name)`.
  unfoldable pub add_member : ℕ → ℕ → ℕ → World → World
  add_member ch own a w =
      let channel = w.channel_at ch in
      let acc = w.account_at a in
      if contains channel.members a
      then w
      else set_account a (record acc { channels = insert channel.name own acc.channels })
          (set_channel ch (record channel { members = channel.members ++ a ∷ [] }) w)

  -- The connections of the account enter the channel.
  unfoldable pub join_connections : ℕ → JoinEvent → World → World
  unfolding for_each Notify.channel_join
  join_connections ch ev w =
      for_each (w.account_at ev.account).connections
        (λ c v.
          if has_key (v.channel_at ch).name (v.connection_at c).channels
          then v
          else Notify.channel_join env c ev v)
        w

  abbrev pub told_join : ℕ → JoinEvent → ℕ → World → World
  told_join own ev c w =
      if contains (members_of own (w.connection_at c).channel_members) ev.account
      then w
      else Notify.channel_join env c ev (touch_members c own w)

  -- The other members are told, unless they know.
  unfoldable pub join_members : ℕ → ℕ → JoinEvent → World → World
  unfolding for_each Notify.channel_join members_of touch_members
  join_members ch own ev w =
      for_each (w.channel_at ch).members
        (λ a v.
          if nat_eqb (v.account_at a).uid (v.account_at ev.account).uid
          then v
          else for_each (v.account_at a).connections (told_join own ev) v)
        w

  -- `join`, when the modules have had the event.
  unfoldable pub join_event : ℕ → JoinEvent → World → World
  unfolding get_channel add_member join_connections join_members
  join_event ch ev w =
      let own = get_channel (w.channel_at ch).name w in
      join_members ch own ev (join_connections ch ev (add_member ch own ev.account w))

  -- `join`
  unfoldable pub join : ℕ → JoinEvent → World → World
  unfolding converted join_event
  join ch ev w = elim (consult_join ev) [ none ↦ w | some kept ↦ join_event ch kept w ]

  -- An answer that is no event stops the message too.
  abbrev pub consult_message : Message → Option Message
  consult_message m =
      let kind = if m.tag_msg then tag_msg else channel_msg in
      if env.plugin.has_handler kind
      then (let (changed, result) = env.plugin.on_message kind m in
          elim (converted message_event result) [
            | none ↦ none
            | some true ↦ none
            | some false ↦ some changed
          ])
      else some m

  -- `message`
  unfoldable pub message : ℕ → Message → World → World
  unfolding converted message_members
  message ch m w = elim (consult_message m) [ none ↦ w | some kept ↦ message_members ch kept w ]

  -- The answer is read as if it were a `NickChange`.
  abbrev pub consult_rename : RenameEvent → Option RenameEvent
  consult_rename ev =
      if env.plugin.has_handler channel_rename
      then (let (changed, result) = env.plugin.on_rename ev in
          if is_cancelled (converted nick_event result) then none else some changed)
      else some ev

  -- `rename`
  unfoldable pub rename : RenameEvent → World → Bool × World
  unfolding get_channel converted broadcast
  rename ev w =
      let from = get_channel (w.channel_at ev.channel).name w in
      if ev.old_name == ev.new_name
      then (false, w)
      else if is_null from
      then (false, w)
      else elim (consult_rename ev) [
        | none ↦ (false, w)
        | some ev ↦
            let renamed = set_channel from (record (w.channel_at from) { name = ev.new_name }) w in
            (
              true,
              broadcast (λ c. call_rename c ev) (renamed.channel_at ev.channel).members renamed,
            )
      ]
