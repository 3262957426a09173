-- ===== src/Modes/Setup.antt =====
-- irc/client_connection.h: what is left to do before a connection is ready.
use chatripper.Common.{ℕ, ◌<◌, ◌≡◌, refl, sym, ap, ◌∙◌, nat_eqb, arith, if◌then◌else◌, nat_key}
use chatripper.Bitflags.{FlagEnum}

pub data SetupTask : Type 0 where
  cap_exchange nick user : SetupTask

abbrev setup_task_shift : SetupTask → ℕ
setup_task_shift cap_exchange = 0
setup_task_shift nick = 1
setup_task_shift user = 2

pub setup_task_shift-lt : (e : SetupTask) → setup_task_shift e < 32
setup_task_shift-lt cap_exchange = omega arith
setup_task_shift-lt _ = omega arith

abbrev setup_task_at : ℕ → SetupTask
setup_task_at n = if nat_eqb n 0 then cap_exchange else if nat_eqb n 1 then nick else user

setup_task_at-shift : (e : SetupTask) → setup_task_at (setup_task_shift e) ≡ e
setup_task_at-shift cap_exchange = refl
setup_task_at-shift _ = refl

pub setup_task_shift_injective : (a b : SetupTask) → setup_task_shift a ≡ setup_task_shift b → a ≡ b
setup_task_shift_injective a b h =
    sym (setup_task_at-shift a) ∙ (ap setup_task_at h ∙ setup_task_at-shift b)

instance abbrev pub setup_task_flags : FlagEnum SetupTask
setup_task_flags = record {
  shift = setup_task_shift;
  shift_lt = setup_task_shift-lt;
  shift_injective = setup_task_shift_injective;
}
