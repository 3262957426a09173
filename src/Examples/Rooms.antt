-- ===== src/Examples/Rooms.antt =====
-- Channels: core/channel.cpp at work.
use chatripper.Common.{
  ◌||◌, bytes_key, ◌==◌, if◌then◌else◌, [], ◌∷◌, find, none, bytes_eqb, bytes_key, arith, ◌<◌, ◌≡◌,
  refl, true, false, codes, ◌↔◌, contains, find, nat_key,
}
use chatripper.Common.Outcome.{done, deadlock}
use chatripper.Bitflags
use chatripper.Modes.Channel.{channel_mode_flags, key, limit}
use chatripper.State.{is_null, Channel}
use chatripper.Core.Channels
use chatripper.Core.Channels.{
  part, join, rename, get_or_create, consult_part, consult_join, consult_message, consult_rename,
}
use chatripper.Core.Caches.{get_channel}
use chatripper.Core.Channels.Rename.{rename_lem, rename_forks, asked, with_name, renamed_channel}
use chatripper.Core.Channels.Mode.{set_mode}
use chatripper.Core.Channels.Mode.Effects.{
  set_mode_deadlocks, set_mode-has, locks_twice, flag_after,
}
use chatripper.Core.Channels.Members.{part_lem, part_result, join-members, join_result}
use chatripper.Core.Channels.Delivery.{message_lem, message_result}
use chatripper.Irc.Notify.{channel_part, is_own_part, members_of}
use chatripper.Irc.Notify.Parts.{channel_parts, channel_part_silences}
use chatripper.Examples.Data.{
  sample_env, sample_world, hello, bob_leaves, carol_leaves, bob_joins, lobby_renames, lobby,
  digit_to_int,
}

message_lem_example :
    Channels.message sample_env 1 hello sample_world
    ≡ message_result 1 (consult_message sample_env hello) sample_world
message_lem_example = message_lem sample_env 1 hello sample_world

part_lem_example :
    part sample_env 1 bob_leaves sample_world
    ≡ part_result 1 (consult_part sample_env bob_leaves) sample_world
part_lem_example = part_lem sample_env 1 bob_leaves sample_world

join-members_example :
    ((join sample_env 1 bob_joins sample_world).channel_at 1).members
    ≡ join_result 1 (consult_join sample_env bob_joins) sample_world
join-members_example = join-members sample_env 1 bob_joins sample_world

set_mode_deadlocks_example :
    (set_mode digit_to_int key true (codes "k") lobby ≡ deadlock)
    ↔ (locks_twice key (codes "k") ≡ true)
set_mode_deadlocks_example = set_mode_deadlocks digit_to_int key true (codes "k") lobby refl

set_mode-has_example :
    (out : Channel) × (set_mode digit_to_int limit true (codes "5") lobby ≡ done out)
    × (out.write_locked ≡ false)
    × (Bitflags.has limit out.channel_modes
        ≡ flag_after digit_to_int limit true (codes "5") lobby limit)
set_mode-has_example = set_mode-has digit_to_int limit limit true (codes "5") lobby refl refl

-- The connection 1 is not of the account that leaves, and knows it as a member.
other_account : is_own_part 1 bob_leaves sample_world ≡ false
unfolding is_own_part
other_account = refl

third_account : is_own_part 1 carol_leaves sample_world ≡ false
unfolding is_own_part
third_account = refl

known_member : contains (members_of 1 (sample_world.connection_at 1).channel_members) 2 ≡ true
unfolding members_of contains find
known_member = refl

channel_part_silences_example :
    channel_parts 1 (carol_leaves ∷ []) (channel_part 1 bob_leaves sample_world)
    ≡ channel_part 1 bob_leaves sample_world
channel_part_silences_example =
    channel_part_silences 1 bob_leaves (carol_leaves ∷ []) sample_world other_account known_member
      (refl, third_account, tt)

rename_lem_example : rename sample_env lobby_renames sample_world ≡ (
    if (codes "lobby" == codes "hall")
      || is_null (renamed_channel lobby_renames sample_world)
      || (asked sample_env lobby_renames).1
    then (false, sample_world)
    else (
      true,
      with_name
          (renamed_channel lobby_renames sample_world)
          (asked sample_env lobby_renames).0
          sample_world,
    ))
rename_lem_example = rename_lem sample_env lobby_renames sample_world

lobby_is_renamed : (rename sample_env lobby_renames sample_world).0 ≡ true
unfolding rename get_channel find bytes_eqb
lobby_is_renamed = refl

hall_is_free : find (codes "hall") sample_world.channels ≡ none
unfolding find bytes_eqb
hall_is_free = refl

lobby_was_made : renamed_channel lobby_renames sample_world < sample_world.next_channel
unfolding get_channel find bytes_eqb
lobby_was_made = omega arith

rename_forks_example :
    (let (made, after) =
        get_or_create (codes "hall") (rename sample_env lobby_renames sample_world).1 in
      (made ≡ 2)
      × ((after.channel_at made).name ≡ codes "hall")
      × ((after.channel_at (renamed_channel lobby_renames sample_world)).name ≡ codes "hall")
      × (get_channel (codes "lobby") after ≡ renamed_channel lobby_renames sample_world))
rename_forks_example =
    rename_forks sample_env lobby_renames lobby_renames sample_world refl lobby_is_renamed
      hall_is_free lobby_was_made
