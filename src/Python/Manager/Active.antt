-- ===== src/Python/Manager/Active.antt =====
-- python/manager.cpp: which events have a handler, whatever happened to the modules.
use chatripper.Common.{
  ℕ, ◌+◌, ◌≡◌, refl, Bool, false, ◌&&◌, ◌||◌, Option, List, [], ◌∷◌, Bytes, Map, if◌then◌else◌,
  arith,
}
use chatripper.Common.Outcome.{done}
use chatripper.Bitflags
use chatripper.Bitflags.{Flags, no_flags}
use chatripper.Bitflags.Laws.{has-set, same}
use chatripper.Env.{EventType, auth_sasl_plain}
use chatripper.Python.Events.{event_flags}
use chatripper.Python.Manager.{
  ModuleMode, ModuleClass, SnakePit, Found, new_pit, is_exclusive, add_handlers, add_modules,
  calc_active_events, on_snakes_ready, restart, refresh_modules_all, set_module, switch_module,
  has_event_handler, call_function_list,
}

-- The module has a handler of the event.
unfoldable mentions : EventType → List EventType → Bool
mentions e [] = false
mentions e (h ∷ hs) = same h e || mentions e hs

-- Some module that is enabled has a handler of the event.
unfoldable pub handled : EventType → Map Bytes ModuleClass → Bool
unfolding mentions
handled e [] = false
handled e ((name, m) ∷ rest) = (m.enabled && mentions e m.handlers) || handled e rest

-- Some module that is enabled and exclusive has a handler of the event.
unfoldable pub handled_exclusively : EventType → Map Bytes ModuleClass → Bool
unfolding mentions
handled_exclusively e [] = false
handled_exclusively e ((name, m) ∷ rest) =
    (m.enabled && (is_exclusive m.mode && mentions e m.handlers)) || handled_exclusively e rest

add_handlers-has :
    (mode : ModuleMode) (hs : List EventType) (f : Found) (e : EventType)
    → (Bitflags.has e (add_handlers mode hs f).0 ≡ (mentions e hs || Bitflags.has e f.0))
      × (Bitflags.has e (add_handlers mode hs f).1
          ≡ ((is_exclusive mode && mentions e hs) || Bitflags.has e f.1))
unfolding add_handlers mentions
add_handlers-has mode [] f e = ground arith
add_handlers-has mode (h ∷ hs) f e =
    let next : Found =
      (Bitflags.set h f.0, if is_exclusive mode then Bitflags.set h f.1 else f.1) in
    ground (arith, has-set h e f.0, has-set h e f.1, add_handlers-has mode hs next e)

add_modules-has :
    (ms : Map Bytes ModuleClass) (f : Found) (e : EventType)
    → (Bitflags.has e (add_modules ms f).0 ≡ (handled e ms || Bitflags.has e f.0))
      × (Bitflags.has e (add_modules ms f).1 ≡ (handled_exclusively e ms || Bitflags.has e f.1))
unfolding add_modules handled handled_exclusively
add_modules-has [] f e = ground arith
add_modules-has ((name, m) ∷ rest) f e = ground (
  arith,
  add_handlers-has m.mode m.handlers f e,
  add_modules-has rest f e,
  add_modules-has rest (add_handlers m.mode m.handlers f) e,
)

-- The two sets of events are those of the modules.
abbrev IsCurrent : SnakePit → Type 0
IsCurrent s =
    (e : EventType)
    → (has_event_handler e s ≡ handled e s.modules)
      × (Bitflags.has e s.active_exclusive_events ≡ handled_exclusively e s.modules)

no_flags-has : (e : EventType) → Bitflags.has e no_flags ≡ false
unfolding Bitflags.has
no_flags-has auth_sasl_plain = refl
no_flags-has _ = refl

calc_active_events-IsCurrent : (s : SnakePit) → IsCurrent (calc_active_events s)
unfolding calc_active_events has_event_handler
calc_active_events-IsCurrent s e =
    ground (arith, no_flags-has e, add_modules-has s.modules (no_flags, no_flags) e)

-- What may happen to the manager, one thing at a time.
pub data Step (s : SnakePit) : SnakePit → Type 0 where
  ready : (ok : Bool) (listed : Map Bytes ModuleClass) → Step s (on_snakes_ready ok listed s)
  restarted : Step s (restart s)
  refreshed : (listed : Map Bytes ModuleClass) → Step s (refresh_modules_all listed s)
  switched :
      (on : Bool) (name : Bytes) (answers : List Bool) → Step s (set_module on name answers s).1
  called :
      (args : List (Option EventType)) (target : Option ℕ) {t : SnakePit}
      → call_function_list args s ≡ done (target, t)
      → Step s t

pub data Reach (s : SnakePit) : SnakePit → Type 0 where
  here : Reach s s
  next : {t u : SnakePit} → Reach s t → Step t u → Reach s u

called-IsCurrent :
    (args : List (Option EventType)) (target : Option ℕ) (s t : SnakePit)
    → call_function_list args s ≡ done (target, t)
    → IsCurrent s
    → IsCurrent t
unfolding call_function_list has_event_handler
called-IsCurrent [] target s t e h event = ground (arith, h event)
called-IsCurrent (a ∷ args) target s t e h event = ground (arith, h event)

Step-IsCurrent : {s t : SnakePit} → Step s t → IsCurrent s → IsCurrent t
unfolding on_snakes_ready restart refresh_modules_all set_module has_event_handler
Step-IsCurrent {s} (ready ok listed) h e =
    let counted = record s { started_counter = s.started_counter + 1; modules = listed } in
    ground (arith, h e, calc_active_events-IsCurrent counted e)
Step-IsCurrent restarted h e = ground (arith, h e)
Step-IsCurrent {s} (refreshed listed) h e =
    ground (arith, h e, calc_active_events-IsCurrent (record s { modules = listed }) e)
Step-IsCurrent {s} (switched on name answers) h e =
    calc_active_events-IsCurrent (record s { modules = switch_module on name s.modules }) e
Step-IsCurrent (called args target e) h event = called-IsCurrent args target _ _ e h event

Reach-IsCurrent : {s t : SnakePit} → IsCurrent s → Reach s t → IsCurrent t
Reach-IsCurrent h here = h
Reach-IsCurrent h (next r st) = Step-IsCurrent st (Reach-IsCurrent h r)

new_pit-IsCurrent : (n : ℕ) → IsCurrent (new_pit n)
unfolding new_pit has_event_handler handled handled_exclusively
new_pit-IsCurrent n e = (no_flags-has e, no_flags-has e)

-- From the start on, whatever interpreters became ready, however often the modules were listed again,
-- switched on or off, and events were called: an event is reported to have a handler exactly if an
-- enabled module handles it, and it is pinned to interpreter 0 exactly if an enabled exclusive
-- module does.
pub reachable-IsCurrent :
    (n : ℕ) (s : SnakePit) (e : EventType)
    → Reach (new_pit n) s
    → (has_event_handler e s ≡ handled e s.modules)
      × (Bitflags.has e s.active_exclusive_events ≡ handled_exclusively e s.modules)
reachable-IsCurrent n s e r = Reach-IsCurrent (new_pit-IsCurrent n) r e
