-- ===== src/Core/Channels/Mode/Effects.antt =====
-- What `setMode` does to a channel, and when it never returns.
use chatripper.Common.{
  ◌≡◌, ◌↔◌, refl, Bool, true, false, Option, none, some, [], ◌∷◌, Bytes, if◌then◌else◌, ◌&&◌, arith,
  bytes_key,
}
use chatripper.Common.Time.{ℤ, pos, negsuc}
use chatripper.Common.Outcome.{Outcome, done, deadlock, ◌>>=◌}
use chatripper.Bitflags
use chatripper.Bitflags.Laws.{has-set, has-clear, same}
use chatripper.Modes.Channel.{
  ChannelMode, channel_mode_flags, channel_mode_key, invite_only, ban, key, limit,
}
use chatripper.State.{Channel}
use chatripper.Core.Channels.Mode.{
  set_mode, set_flag, set_limit, with_lock, switch_mode, set_key, add_ban, remove_ban,
}

-- Whether the setter of the mode locks the channel again.
abbrev pub locks_twice : ChannelMode → Bytes → Bool
locks_twice key arg = true
locks_twice ban [] = false
locks_twice ban (_ ∷ _) = true
locks_twice mode arg = false

-- `ok && newLimit >= 0`
abbrev is_limit : Option ℤ → Bool
is_limit none = false
is_limit (some (pos n)) = true
is_limit (some (negsuc n)) = false

-- Whether the request sets or clears the flag of the mode: a limit has to be a number that is not
-- negative, and a ban has no flag.
abbrev has_effect : (Bytes → Option ℤ) → ChannelMode → Bool → Bytes → Bool
has_effect to_int ban adding arg = false
has_effect to_int limit false arg = true
has_effect to_int limit true arg = is_limit (to_int arg)
has_effect to_int mode adding arg = true

with_lock_free :
    (body : Channel → Outcome Channel) (ch : Channel)
    → ch.write_locked ≡ false
    → with_lock body ch ≡ (
        body (record ch { write_locked = true }) >>= λ out.
        done (record out { write_locked = false }))
with_lock_free body ch h = rw h refl

-- The body of `setMode`, and the end of the lock.
abbrev unlocked : (Bytes → Option ℤ) → ChannelMode → Bool → Bytes → Channel → Outcome Channel
unlocked to_int mode adding arg ch =
    switch_mode to_int mode adding arg (record ch { write_locked = true }) >>= λ out.
    done (record out { write_locked = false })

switch_mode_deadlocks :
    (to_int : Bytes → Option ℤ) (mode : ChannelMode) (adding : Bool) (arg : Bytes) (ch : Channel)
    → (unlocked to_int mode adding arg ch ≡ deadlock) ↔ (locks_twice mode arg ≡ true)
unfolding switch_mode set_key add_ban remove_ban
switch_mode_deadlocks to_int key adding arg ch = ((λ _. refl), (λ _. refl))
switch_mode_deadlocks to_int ban adding [] ch = ground arith
switch_mode_deadlocks to_int ban true (c ∷ arg) ch = ((λ _. refl), (λ _. refl))
switch_mode_deadlocks to_int ban false (c ∷ arg) ch = ((λ _. refl), (λ _. refl))
switch_mode_deadlocks to_int limit true arg ch = ground arith
switch_mode_deadlocks to_int limit false arg ch = ground arith
switch_mode_deadlocks to_int invite_only adding arg ch = ground arith
switch_mode_deadlocks to_int _ adding arg ch = ground arith

-- A change of mode on a channel that is not locked deadlocks exactly if it is a change of key, or
-- one of bans with a mask.
pub set_mode_deadlocks :
    (to_int : Bytes → Option ℤ) (mode : ChannelMode) (adding : Bool) (arg : Bytes) (ch : Channel)
    → ch.write_locked ≡ false
    → (set_mode to_int mode adding arg ch ≡ deadlock) ↔ (locks_twice mode arg ≡ true)
unfolding set_mode
set_mode_deadlocks to_int mode adding arg ch h =
    rw (with_lock_free (switch_mode to_int mode adding arg) ch h)
      (switch_mode_deadlocks to_int mode adding arg ch)

-- The flag `d` of the channel after the request.
abbrev pub flag_after :
    (Bytes → Option ℤ) → ChannelMode → Bool → Bytes → Channel → ChannelMode → Bool
flag_after to_int mode adding arg ch d =
    if has_effect to_int mode adding arg && same mode d
    then adding
    else Bitflags.has d ch.channel_modes

set_flag-has :
    (mode d : ChannelMode) (adding : Bool) (ch : Channel)
    → Bitflags.has d (set_flag mode adding ch).channel_modes
      ≡ (if same mode d then adding else Bitflags.has d ch.channel_modes)
unfolding set_flag
set_flag-has mode d true ch = ground (arith, has-set mode d ch.channel_modes)
set_flag-has mode d false ch = ground (arith, has-clear mode d ch.channel_modes)

set_limit-has :
    (parsed : Option ℤ) (d : ChannelMode) (ch : Channel)
    → Bitflags.has d (set_limit parsed (record ch { write_locked = true })).channel_modes
      ≡ (if is_limit parsed && same limit d then true else Bitflags.has d ch.channel_modes)
unfolding set_limit
set_limit-has none d ch = refl
set_limit-has (some (negsuc n)) d ch = refl
set_limit-has (some (pos n)) d ch =
    set_flag-has limit d true (record ch { limit = n; write_locked = true })

switch_mode-has :
    (to_int : Bytes → Option ℤ) (mode d : ChannelMode) (adding : Bool) (arg : Bytes) (ch : Channel)
    → locks_twice mode arg ≡ false
    → (out : Channel) × (unlocked to_int mode adding arg ch ≡ done out)
      × (out.write_locked ≡ false)
      × (Bitflags.has d out.channel_modes ≡ flag_after to_int mode adding arg ch d)
unfolding switch_mode set_flag set_limit
switch_mode-has to_int key d adding arg ch h = absurd (ground arith)
switch_mode-has to_int ban d adding [] ch h = (_, refl, refl, refl)
switch_mode-has to_int ban d adding (c ∷ arg) ch h = absurd (ground arith)
switch_mode-has to_int limit d true arg ch h = (_, refl, refl, set_limit-has (to_int arg) d ch)
switch_mode-has to_int limit d false arg ch h = (_, refl, refl, set_flag-has limit d false ch)
switch_mode-has to_int invite_only d adding arg ch h =
    (_, refl, refl, set_flag-has invite_only d adding ch)
switch_mode-has to_int mode d adding arg ch h = (_, refl, refl, set_flag-has mode d adding ch)

-- Any other change of mode on a channel that is not locked returns, with the lock given back. Only
-- the flag of the mode that was asked for has changed, to the sign of the request, and only if the
-- request has an effect: a ban has no flag, and a new limit has to be a number that is not negative.
pub set_mode-has :
    (to_int : Bytes → Option ℤ) (mode d : ChannelMode) (adding : Bool) (arg : Bytes) (ch : Channel)
    → ch.write_locked ≡ false
    → locks_twice mode arg ≡ false
    → (out : Channel) × (set_mode to_int mode adding arg ch ≡ done out)
      × (out.write_locked ≡ false)
      × (Bitflags.has d out.channel_modes ≡ flag_after to_int mode adding arg ch d)
unfolding set_mode
set_mode-has to_int mode d adding arg ch free h =
    rw (with_lock_free (switch_mode to_int mode adding arg) ch free)
      (switch_mode-has to_int mode d adding arg ch h)
