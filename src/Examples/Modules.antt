-- ===== src/Examples/Modules.antt =====
-- The operator's modules: python/manager.cpp at work.
use chatripper.Common.{
  ◌≡◌, true, false, some, List, [], ◌∷◌, codes, arith, Map, All, Bytes, Option, ◌<◌,
}
use chatripper.Common.Outcome.{done}
use chatripper.Bitflags
use chatripper.Env.{EventType, channel_join, channel_msg}
use chatripper.Python.Events.{event_flags}
use chatripper.Python.Manager.{
  SnakePit, ModuleClass, concurrent, exclusive, new_pit, refresh_modules_all, set_module,
  has_event_handler,
}
use chatripper.Python.Manager.Active.{
  here, next, refreshed, switched, handled, handled_exclusively, reachable-IsCurrent,
}
use chatripper.Python.Manager.Targets.{run_calls, turns, run_calls_lem, IsTarget}

-- A module that logs messages, and one that alone decides on joins.
abbrev two_modules : Map Bytes ModuleClass
two_modules =
    (codes "gate", record { enabled = true; mode = exclusive; handlers = channel_join ∷ [] })
    ∷ (codes "log", record { enabled = true; mode = concurrent; handlers = channel_msg ∷ [] })
    ∷ []

abbrev loaded : SnakePit
loaded = refresh_modules_all two_modules (new_pit 4)

abbrev without_log : SnakePit
without_log = (set_module false (codes "log") [] loaded).1

reachable-IsCurrent_example :
    (has_event_handler channel_msg without_log ≡ handled channel_msg without_log.modules)
    × (Bitflags.has channel_msg without_log.active_exclusive_events
        ≡ handled_exclusively channel_msg without_log.modules)
reachable-IsCurrent_example =
    reachable-IsCurrent 4 without_log channel_msg
      (next (next here (refreshed two_modules)) (switched false (codes "log") []))

abbrev three_calls : List (Option EventType)
three_calls = some channel_msg ∷ some channel_join ∷ some channel_msg ∷ []

first_in_range : loaded.next_index < loaded.snakes
unfolding refresh_modules_all new_pit
first_in_range = omega arith

run_calls_lem_example :
    (t : SnakePit) × (run_calls three_calls loaded
      ≡ done (turns loaded.active_exclusive_events loaded.snakes loaded.next_index three_calls, t))
    × All
        (IsTarget loaded.snakes)
        (turns loaded.active_exclusive_events loaded.snakes loaded.next_index three_calls)
run_calls_lem_example = run_calls_lem three_calls loaded first_in_range
