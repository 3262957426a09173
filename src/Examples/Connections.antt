-- ===== src/Examples/Connections.antt =====
-- Connections: irc/client_connection.cpp at work.
use chatripper.Common.{
  inr, ◌≡◌, refl, true, some, List, codes, to_lower, find, nat_key, bytes_key, arith, Bytes, All,
  bytes_eqb,
}
use chatripper.Common.Outcome.{done}
use chatripper.Caps.{capability_flags}
use chatripper.Modes.User.{user_mode_flags}
use chatripper.Modes.Setup.{setup_task_flags}
use chatripper.Lines.Framing.Stream.{concat}
use chatripper.State.{World}
use chatripper.Core.Caches.{irc_nick_get}
use chatripper.Irc.Setup.{try_finalize_setup}
use chatripper.Irc.Setup.Access.{Admitted, is_ready, try_finalize_succeeds, try_finalize_guards}
use chatripper.Irc.Info.{chunks}
use chatripper.Irc.Info.Chunks.{IsChunk, chunks_lem}
use chatripper.Examples.Data.{sample_env, sample_world}

carol-Admitted : Admitted sample_env 4 sample_world
unfolding irc_nick_get bytes_eqb find to_lower
carol-Admitted = (refl, inr refl, inr refl)

try_finalize_succeeds_example :
    (v : World) × (try_finalize_setup sample_env 4 sample_world ≡ done v)
    × (is_ready sample_env 4 v ≡ true)
try_finalize_succeeds_example =
    try_finalize_succeeds sample_env 4 sample_world refl carol-Admitted tt

-- The server with carol's connection ready.
carol_ready :
    (v : World) × (try_finalize_setup sample_env 4 sample_world ≡ done v)
    × (is_ready sample_env 4 v ≡ true)
carol_ready = try_finalize_succeeds sample_env 4 sample_world refl carol-Admitted tt

try_finalize_guards_example : Admitted sample_env 4 sample_world
try_finalize_guards_example =
    try_finalize_guards sample_env 4 sample_world carol_ready.0 refl carol_ready.1 carol_ready.2

chunks_lem_example :
    (cs : List Bytes) × (chunks 6 (codes "hello") ≡ some cs)
    × (concat cs ≡ codes "hello")
    × All IsChunk cs
chunks_lem_example = chunks_lem 6 (codes "hello") (omega arith)
