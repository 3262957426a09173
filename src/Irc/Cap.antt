-- ===== src/Irc/Cap.antt =====
-- irc/client_connection.cpp: `handleCAP`, the exchange of capabilities.
pub mod Requests
use chatripper.Common.{
  ℕ, ◌+◌, Bool, true, false, not, ◌&&◌, ◌||◌, Option, none, some, List, [], ◌∷◌, ◌++◌, Bytes, codes,
  is_empty, drop, split, skip_empty, join, map, starts_with, leb, nat_eqb, if◌then◌else◌, bytes_key,
  ◌==◌,
}
use chatripper.Common.Time.{ℤ, pos, negsuc, at_least}
use chatripper.Common.Outcome.{Outcome, done, fault}
use chatripper.Bitflags
use chatripper.Bitflags.{Flags}
use chatripper.Caps
use chatripper.Caps.{ProtocolCapability, capability_flags}
use chatripper.Modes.Setup as SetupTasks
use chatripper.Modes.Setup.{setup_task_flags}
use chatripper.State.{Connection, World, set_connection}
use chatripper.Env.{Env}
use chatripper.Irc.Reply.{send_raw}
use chatripper.Irc.Setup.{try_finalize_setup}
use chatripper.Irc.Register.{finish_task}

-- `c.section('=', 0, 0)`
abbrev first_part : List Bytes → Bytes
first_part [] = []
first_part (p ∷ _) = p

unfoldable cap_name : Bytes → Bytes
cap_name c = first_part (split b'=' c)

abbrev pub word_separator : Bytes
word_separator = 32 ∷ []

-- What a capability that was acknowledged sets.
unfoldable pub enable : Bytes → Flags ProtocolCapability → Flags ProtocolCapability
enable cap f =
    if cap == codes "multi-prefix"
    then Bitflags.set Caps.multi_prefix f
    else if cap == codes "extended-join"
    then Bitflags.set Caps.extended_join f
    else if cap == codes "chghost"
    then Bitflags.set Caps.chghost f
    else if cap == codes "echo-message"
    then Bitflags.set Caps.echo_message f
    else if cap == codes "znc.in/self-message"
    then Bitflags.set Caps.znc_self_message f
    else if cap == codes "message-tags"
    then Bitflags.set Caps.message_tags f
    else if cap == codes "draft/metadata" || cap == codes "draft/metadata-2"
    then Bitflags.set Caps.metadata f
    else if cap == codes "soju.im/FILEHOST"
    then Bitflags.set Caps.filehost f
    else if cap == codes "extended-isupport"
    then Bitflags.set Caps.extended_isupport f
    else f

unfoldable pub enable_each : List Bytes → Flags ProtocolCapability → Flags ProtocolCapability
unfolding enable
enable_each [] f = f
enable_each (cap ∷ rest) f = enable_each rest (enable cap f)

unfoldable is_offered : Bytes → List Bytes → Bool
unfolding cap_name
is_offered name [] = false
is_offered name (c ∷ rest) = cap_name c == name || is_offered name rest

-- A leading minus asks to switch a capability off.
unfoldable requested_name : Bytes → Bytes
requested_name r = if starts_with b'-' r then drop 1 r else r

unfoldable pub all_offered : List Bytes → List Bytes → Bool
unfolding is_offered requested_name
all_offered offers [] = true
all_offered offers (r ∷ rest) = is_offered (requested_name r) offers && all_offered offers rest

module _ (env : Env) where
  -- The version that `CAP LS` names, if it is 302 or more.
  unfoldable ls_version : List Bytes → Option ℕ
  ls_version [] = none
  ls_version (version ∷ _) = elim (env.to_int version) [
    | some (pos n) ↦ if leb 302 n then some n else none
    | _ ↦ none
  ]

  -- `std::max(client_cap_version, ver)`
  unfoldable note_version : ℕ → World → World
  note_version n w = record w {
    client_cap_version = if leb n w.client_cap_version then w.client_cap_version else n;
  }

  unfoldable cap_ls : ℕ → List Bytes → World → World
  unfolding cap_name ls_version note_version send_raw
  cap_ls c params w = elim (ls_version params) [
    | some n ↦
        send_raw env c (codes "CAP * LS :" ++ join word_separator env.server_capabilities)
          (note_version n w)
    | none ↦
        send_raw env c
          (codes "CAP * LS :" ++ join word_separator (map cap_name env.server_capabilities)) w
  ]

  -- The names of a request.
  unfoldable pub requested_caps : Bytes → List Bytes
  requested_caps line = skip_empty (split 32 (if starts_with b':' line then drop 1 line else line))

  unfoldable pub enable_caps : ℕ → List Bytes → World → World
  unfolding enable_each
  enable_caps c requested w =
      let conn = w.connection_at c in
      set_connection c (record conn { capabilities = enable_each requested conn.capabilities }) w

  unfoldable pub cap_req : ℕ → List Bytes → World → World
  unfolding requested_caps all_offered enable_caps send_raw
  cap_req c [] w = send_raw env c (codes "CAP * NAK :") w
  cap_req c (line ∷ _) w =
      let requested = requested_caps line in
      if not (is_empty requested) && all_offered env.server_capabilities requested
      then enable_caps c requested
          (send_raw env c (codes "CAP * ACK :" ++ join word_separator requested) w)
      else send_raw env c (codes "CAP * NAK :" ++ join word_separator requested) w

  unfoldable cap_list : ℕ → World → World
  unfolding cap_name send_raw
  cap_list c w =
      let enabled =
        if leb 302 w.client_cap_version
        then env.server_capabilities
        else map cap_name env.server_capabilities in
      send_raw env c (codes "CAP * LIST :" ++ join word_separator enabled) w

  unfoldable pub handle_cap : ℕ → List Bytes → World → Outcome World
  unfolding cap_ls cap_req cap_list finish_task try_finalize_setup
  handle_cap c args w =
      if not (Bitflags.has SetupTasks.cap_exchange (w.connection_at c).setup_tasks)
      then done w
      else elim args [
        | [] ↦ fault
        | sub_cmd ∷ params ↦
            if sub_cmd == codes "LS"
            then done (cap_ls c params w)
            else if sub_cmd == codes "REQ"
            then done (cap_req c params w)
            else if sub_cmd == codes "LIST"
            then done (cap_list c w)
            else if sub_cmd == codes "END"
            then try_finalize_setup env c (finish_task env c SetupTasks.cap_exchange w)
            else done w
      ]
