-- ===== src/Python/Manager.antt =====
-- python/manager.cpp: the interpreters, which of them runs an event, and the events that have a
-- handler. What an interpreter itself answers (`listModules`, `enableModule`) is an argument.
pub mod Active
pub mod Targets
use chatripper.Common.{
  ℕ, ◌+◌, ◌%◌, Bool, true, false, not, ◌&&◌, ltb, nat_eqb, Option, none, some, List, [], ◌∷◌, Bytes,
  Map, find, insert, bytes_key, if◌then◌else◌,
}
use chatripper.Common.Outcome.{Outcome, done, fault}
use chatripper.Bitflags
use chatripper.Bitflags.{Flags, no_flags}
use chatripper.Env.{EventType}
use chatripper.Python.Events.{event_flags}

pub data ModuleMode : Type 0 where
  concurrent exclusive : ModuleMode

-- `ModuleClass`, the fields that the manager reads; of a handler, its event.
pub record ModuleClass : Type 0 where
  pub enabled : Bool
  pub mode : ModuleMode
  pub handlers : List EventType

-- `SnakePit`; `snakes` is the size of `m_snakes`.
pub record SnakePit : Type 0 where
  pub modules : Map Bytes ModuleClass
  active_events : Flags EventType
  pub active_exclusive_events : Flags EventType
  pub thread_count : ℕ
  pub snakes : ℕ
  pub next_index : ℕ
  pub started_counter : ℕ

-- The constructor, with `m_thread_count`.
unfoldable pub new_pit : ℕ → SnakePit
new_pit n = record {
  modules = [];
  active_events = no_flags;
  active_exclusive_events = no_flags;
  thread_count = n;
  snakes = n;
  next_index = 0;
  started_counter = 0;
}

abbrev pub is_exclusive : ModuleMode → Bool
is_exclusive exclusive = true
is_exclusive concurrent = false

-- `flags` and `flagsExclusive`
abbrev pub Found : Type 0
Found = Flags EventType × Flags EventType

-- The loop over the handlers of one module.
unfoldable pub add_handlers : ModuleMode → List EventType → Found → Found
add_handlers mode [] f = f
add_handlers mode (event ∷ rest) f =
    add_handlers mode rest
      (Bitflags.set event f.0, if is_exclusive mode then Bitflags.set event f.1 else f.1)

unfoldable pub add_modules : Map Bytes ModuleClass → Found → Found
unfolding add_handlers
add_modules [] f = f
add_modules ((name, m) ∷ rest) f =
    add_modules rest (if not m.enabled then f else add_handlers m.mode m.handlers f)

unfoldable pub calc_active_events : SnakePit → SnakePit
unfolding add_modules
calc_active_events s =
    let (flags, flags_exclusive) = add_modules s.modules (no_flags, no_flags) in
    record s { active_events = flags; active_exclusive_events = flags_exclusive }

-- `onSnakesReady`; `listed` is what interpreter 0 lists.
unfoldable pub on_snakes_ready : Bool → Map Bytes ModuleClass → SnakePit → SnakePit
unfolding calc_active_events
on_snakes_ready ok listed s =
    let counted = record s { started_counter = s.started_counter + 1 } in
    if not ok
    then s
    else if ltb counted.started_counter s.thread_count
    then counted
    else if nat_eqb s.snakes 0
    then counted
    else calc_active_events (record counted { modules = listed })

-- `restart`, less the calls to the interpreters.
unfoldable pub restart : SnakePit → SnakePit
restart s = if nat_eqb s.snakes 0 then s else record s { started_counter = 0 }

unfoldable pub refresh_modules_all : Map Bytes ModuleClass → SnakePit → SnakePit
unfolding calc_active_events
refresh_modules_all listed s =
    if nat_eqb s.snakes 0 then s else calc_active_events (record s { modules = listed })

-- `ok &= s->enableModule(name)`
abbrev all_true : List Bool → Bool
all_true [] = true
all_true (b ∷ bs) = b && all_true bs

-- `if (m_modules.contains(key)) m_modules[key]->enabled = on`
unfoldable pub switch_module : Bool → Bytes → Map Bytes ModuleClass → Map Bytes ModuleClass
switch_module on name modules = elim (find name modules) [
  | none ↦ modules
  | some m ↦ insert name (record m { enabled = on }) modules
]

-- `enableModule` and `disableModule`; `answers` are those of the interpreters.
unfoldable pub set_module : Bool → Bytes → List Bool → SnakePit → Bool × SnakePit
unfolding switch_module calc_active_events
set_module on name answers s =
    (all_true answers, calc_active_events (record s { modules = switch_module on name s.modules }))

unfoldable pub has_event_handler : EventType → SnakePit → Bool
has_event_handler event s = Bitflags.has event s.active_events

-- `canConvert<QIRCEvent>()`, and the event is one of an exclusive module.
abbrev pub is_pinned : Option EventType → SnakePit → Bool
is_pinned none s = false
is_pinned (some event) s = Bitflags.has event s.active_exclusive_events

-- The interpreter that a call goes to: interpreter 0 for an event that an exclusive module handles,
-- and else the next in turn.
unfoldable pick_target : Option EventType → SnakePit → ℕ × SnakePit
pick_target event s =
    if is_pinned event s
    then (0, s)
    else (s.next_index, record s { next_index = (s.next_index + 1) % s.snakes })

-- `callFunctionList`, up to the interpreter that is called; none if there is none. An argument is the
-- event that it converts to, if it does.
unfoldable pub call_function_list :
    List (Option EventType) → SnakePit → Outcome (Option ℕ × SnakePit)
unfolding pick_target
call_function_list args s = if nat_eqb s.snakes 0 then done (none, s) else elim args [
  | [] ↦ fault
  | ◌∷◌ event rest ↦ (let (target, after) = pick_target event s in done (some target, after))
]
