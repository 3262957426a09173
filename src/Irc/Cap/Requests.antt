-- ===== src/Irc/Cap/Requests.antt =====
-- What `CAP REQ` can and cannot do, and the crash of a bare `CAP`.
use chatripper.Common.{
  ℕ, ◌≡◌, refl, ap, ◌∙◌, true, not, ◌&&◌, List, [], ◌∷◌, ◌++◌, Bytes, codes, is_empty, join,
  if◌then◌else◌, arith, bytes_key, beq_self, if_both, nat_key,
}
use chatripper.Common.Outcome.{done, fault}
use chatripper.Bitflags
use chatripper.Bitflags.{Flags}
use chatripper.Bitflags.Laws.{has-set}
use chatripper.Caps
use chatripper.Caps.{ProtocolCapability, capability_flags}
use chatripper.Modes.Setup as SetupTasks
use chatripper.Modes.Setup.{setup_task_flags}
use chatripper.State.{World}
use chatripper.Env.{Env}
use chatripper.Irc.Reply.{send_raw}
use chatripper.Irc.Cap.{
  word_separator, enable, enable_each, cap_req, enable_caps, requested_caps, all_offered,
  handle_cap,
}

-- Setting a flag keeps those that are set.
set-keeps :
    (d e : ProtocolCapability) (f : Flags ProtocolCapability)
    → Bitflags.has d f ≡ true
    → Bitflags.has d (Bitflags.set e f) ≡ true
set-keeps d e f h = ground (arith, has-set e d f)

enable-keeps :
    (d : ProtocolCapability) (cap : Bytes) (f : Flags ProtocolCapability)
    → Bitflags.has d f ≡ true
    → Bitflags.has d (enable cap f) ≡ true
unfolding enable
enable-keeps d cap f h = ground (
  arith,
  set-keeps d Caps.multi_prefix f h,
  set-keeps d Caps.extended_join f h,
  set-keeps d Caps.chghost f h,
  set-keeps d Caps.echo_message f h,
  set-keeps d Caps.znc_self_message f h,
  set-keeps d Caps.message_tags f h,
  set-keeps d Caps.metadata f h,
  set-keeps d Caps.filehost f h,
  set-keeps d Caps.extended_isupport f h,
)

enable_each-keeps :
    (d : ProtocolCapability) (caps : List Bytes) (f : Flags ProtocolCapability)
    → Bitflags.has d f ≡ true
    → Bitflags.has d (enable_each caps f) ≡ true
unfolding enable_each
enable_each-keeps d [] f h = h
enable_each-keeps d (cap ∷ rest) f h =
    enable_each-keeps d rest (enable cap f) (enable-keeps d cap f h)

abbrev capabilities_of : ℕ → World → Flags ProtocolCapability
capabilities_of c w = (w.connection_at c).capabilities

send_raw-capabilities :
    (env : Env) (c d : ℕ) (line : Bytes) (w : World)
    → capabilities_of d (send_raw env c line w) ≡ capabilities_of d w
unfolding send_raw
send_raw-capabilities env c d line w = refl

enable_caps-keeps :
    (env : Env) (c : ℕ) (caps : List Bytes) (d : ProtocolCapability) (w : World)
    → Bitflags.has d (capabilities_of c w) ≡ true
    → Bitflags.has d (capabilities_of c (enable_caps env c caps w)) ≡ true
unfolding enable_caps
enable_caps-keeps env c caps d w h =
    ground (arith, beq_self c, enable_each-keeps d caps (capabilities_of c w) h)

-- No request switches a capability off, though one with a leading minus is acknowledged.
cap_req-keeps :
    (env : Env) (c : ℕ) (params : List Bytes) (d : ProtocolCapability) (w : World)
    → Bitflags.has d (capabilities_of c w) ≡ true
    → Bitflags.has d (capabilities_of c (cap_req env c params w)) ≡ true
unfolding cap_req
cap_req-keeps env c [] d w h =
    ap (Bitflags.has d) (send_raw-capabilities env c c (codes "CAP * NAK :") w) ∙ h
cap_req-keeps env c (line ∷ rest) d w h =
    if_both (λ v. Bitflags.has d (capabilities_of c v) ≡ true)
      (not (is_empty (requested_caps env line))
        && all_offered env.server_capabilities (requested_caps env line))
      (enable_caps-keeps env c (requested_caps env line) d
        (send_raw env c (codes "CAP * ACK :" ++ join word_separator (requested_caps env line)) w) h)
      h

-- Before the exchange has ended, `CAP` without a subcommand fails: it reads the first of no
-- parameters. Once it has ended, `CAP` does nothing.
pub handle_cap_fault :
    (env : Env) (c : ℕ) (w : World)
    → handle_cap env c [] w ≡ (
        if Bitflags.has SetupTasks.cap_exchange (w.connection_at c).setup_tasks
        then fault
        else done w)
unfolding handle_cap
handle_cap_fault env c w = ground arith
