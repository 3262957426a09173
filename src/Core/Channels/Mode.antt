-- ===== src/Core/Channels/Mode.antt =====
-- core/channel.cpp: `setMode`, and the setters that it calls. Each setter takes the channel's lock
-- for writing, which the lock does not grant twice, not even to one thread.
pub mod Effects
use chatripper.Common.{
  ℕ, ◌≡◌, refl, Bool, true, false, Option, none, some, List, [], ◌∷◌, ◌++◌, Bytes, is_empty,
  contains, remove_all, if◌then◌else◌, bytes_key, ◌==◌,
}
use chatripper.Common.Time.{ℤ, pos, negsuc}
use chatripper.Common.Outcome.{Outcome, done, deadlock, fault, ◌>>=◌}
use chatripper.Bitflags
use chatripper.Modes.Channel.{
  ChannelMode, channel_mode_flags, invite_only, moderated, no_outside_msgs, quiet, secret,
  topic_protected, ban, key, limit,
}
use chatripper.State.{Channel}

-- `QWriteLocker locker(&mtx_lock)`: the body runs under the lock, which is given back at the end.
abbrev pub with_lock : (Channel → Outcome Channel) → Channel → Outcome Channel
with_lock body ch =
    if ch.write_locked
    then deadlock
    else body (record ch { write_locked = true }) >>= λ out.
        done (record out { write_locked = false })

unfoldable pub set_key : Bytes → Channel → Outcome Channel
set_key k = with_lock (λ ch. done (if ch.key == k then ch else record ch { key = k }))

unfoldable pub add_ban : Bytes → Channel → Outcome Channel
add_ban mask = with_lock (λ ch.
    if is_empty mask
    then done ch
    else if contains ch.ban_masks mask
    then done ch
    else done (record ch { ban_masks = ch.ban_masks ++ mask ∷ [] }))

unfoldable pub remove_ban : Bytes → Channel → Outcome Channel
remove_ban mask = with_lock (λ ch.
    if is_empty mask
    then done ch
    else done (record ch { ban_masks = remove_all ch.ban_masks mask }))

-- A mode without an argument.
unfoldable pub set_flag : ChannelMode → Bool → Channel → Channel
set_flag mode adding ch = record ch {
  channel_modes =
      if adding then Bitflags.set mode ch.channel_modes else Bitflags.clear mode ch.channel_modes;
}

-- `+l`; `parsed` is `arg.toInt(&ok)`.
unfoldable pub set_limit : Option ℤ → Channel → Channel
unfolding set_flag
set_limit (some (pos n)) ch = set_flag limit true (record ch { limit = n })
set_limit (some (negsuc n)) ch = ch
set_limit none ch = ch

module _ (to_int : Bytes → Option ℤ) where
  -- The `switch`, under the lock.
  unfoldable pub switch_mode : ChannelMode → Bool → Bytes → Channel → Outcome Channel
  unfolding set_flag set_key add_ban remove_ban set_limit
  switch_mode key adding arg ch =
      set_key (if adding then arg else []) ch >>= λ out. done (set_flag key adding out)
  switch_mode limit true arg ch = done (set_limit (to_int arg) ch)
  switch_mode limit false arg ch = done (set_flag limit false (record ch { limit = 0 }))
  switch_mode ban adding arg ch =
      if is_empty arg then done ch else if adding then add_ban arg ch else remove_ban arg ch
  switch_mode mode adding arg ch = done (set_flag mode adding ch)

  unfoldable pub set_mode : ChannelMode → Bool → Bytes → Channel → Outcome Channel
  unfolding switch_mode
  set_mode mode adding arg = with_lock (switch_mode mode adding arg)
