-- ===== src/Python/Manager/Targets.antt =====
-- python/manager.cpp: which interpreter a call goes to.
use chatripper.Common.{
  ℕ, ◌+◌, ◌%◌, ◌<◌, ◌≡◌, refl, ap, ◌∙◌, sym, Bool, true, false, Option, none, some, List, [], ◌∷◌,
  All, arith, if◌then◌else◌, Bool-cases, inl, inr,
}
use chatripper.Common.Outcome.{Outcome, done, ◌>>=◌}
use native.Mathlib.Nat.{mod-eq_of_lt, mod-add-mod, mod-lt}
use chatripper.Bitflags
use chatripper.Bitflags.{Flags}
use chatripper.Env.{EventType}
use chatripper.Python.Events.{event_flags}
use chatripper.Python.Manager.{SnakePit, is_pinned, call_function_list}

-- Calls, one after the other: the interpreters that they go to.
unfoldable pub run_calls : List (Option EventType) → SnakePit → Outcome (List (Option ℕ) × SnakePit)
unfolding call_function_list
run_calls [] s = done ([], s)
run_calls (e ∷ es) s = do
  (target, t) ← call_function_list (e ∷ []) s
  (targets, u) ← run_calls es t
  done (target ∷ targets, u)

abbrev pinned_in : Flags EventType → Option EventType → Bool
pinned_in f none = false
pinned_in f (some e) = Bitflags.has e f

-- Interpreter 0 for the events in `f`; every other call has its turn, counted from `k`.
unfoldable pub turns : Flags EventType → ℕ → ℕ → List (Option EventType) → List (Option ℕ)
turns f n k [] = []
turns f n k (e ∷ es) = elim (pinned_in f e) [
  | true ↦ some 0 ∷ turns f n k es
  | false ↦ some (k % n) ∷ turns f n (k + 1) es
]

-- The interpreter exists.
abbrev pub IsTarget : ℕ → Option ℕ → Type 0
IsTarget n none = ⊥
IsTarget n (some t) = t < n

turns-IsTarget :
    (f : Flags EventType) (n k : ℕ) (es : List (Option EventType))
    → 0 < n
    → All (IsTarget n) (turns f n k es)
unfolding turns
turns-IsTarget f n k [] h = tt
turns-IsTarget f n k (e ∷ es) h =
    elim (pinned_in f e)
      as (λ b. All (IsTarget n) (elim b as (λ _. List (Option ℕ)) [
        | true ↦ some 0 ∷ turns f n k es
        | false ↦ some (k % n) ∷ turns f n (k + 1) es
      ])) [
        | true ↦ (h, turns-IsTarget f n k es h)
        | false ↦ (mod-lt k h, turns-IsTarget f n (k + 1) es h)
      ]

pinned_lem :
    (e : Option EventType) (s : SnakePit) → is_pinned e s ≡ pinned_in s.active_exclusive_events e
pinned_lem none s = refl
pinned_lem (some e) s = refl

call_pinned :
    (c : Option EventType) (s : SnakePit)
    → 0 < s.snakes
    → is_pinned c s ≡ true
    → call_function_list (c ∷ []) s ≡ done (some 0, s)
unfolding call_function_list
call_pinned c s h e = ground arith

call_free :
    (c : Option EventType) (s : SnakePit)
    → 0 < s.snakes
    → is_pinned c s ≡ false
    → call_function_list (c ∷ []) s
      ≡ done (some s.next_index, record s { next_index = (s.next_index + 1) % s.snakes })
unfolding call_function_list
call_free c s h e = ground arith

turn :
    (f : Flags EventType) (n k : ℕ) (c : Option EventType) (es : List (Option EventType)) (b : Bool)
    → pinned_in f c ≡ b
    → turns f n k (c ∷ es)
      ≡ (if b then some 0 ∷ turns f n k es else some (k % n) ∷ turns f n (k + 1) es)
unfolding turns
turn f n k c es b h = ground arith

run_calls-turns :
    (es : List (Option EventType)) (k : ℕ) (s : SnakePit)
    → 0 < s.snakes
    → s.next_index ≡ k % s.snakes
    → (t : SnakePit) × (run_calls es s ≡ done (turns s.active_exclusive_events s.snakes k es, t))
unfolding run_calls turns
run_calls-turns [] k s h e = (s, refl)
run_calls-turns (c ∷ es) k s h e = elim (Bool-cases (is_pinned c s)) [
  | inl pinned ↦
      (let rest = run_calls-turns es k s h e in
        (
          rest.0,
          rw
              (
                call_pinned c s h pinned,
                turn s.active_exclusive_events s.snakes k c es true (sym (pinned_lem c s) ∙ pinned),
                rest.1,
              )
              refl,
        ))
  | inr free ↦
      (let after = record s { next_index = (s.next_index + 1) % s.snakes } in
        let moved : after.next_index ≡ (k + 1) % s.snakes =
          ap (λ i. (i + 1) % s.snakes) e ∙ mod-add-mod k s.snakes 1 in
        let rest = run_calls-turns es (k + 1) after h moved in
        (
          rest.0,
          rw
              (
                call_free c s h free,
                turn s.active_exclusive_events s.snakes k c es false (sym (pinned_lem c s) ∙ free),
                rest.1,
              )
              (ap (λ i. done (some i ∷ turns s.active_exclusive_events s.snakes (k + 1) es, rest.0))
                e),
        ))
]

-- Calls of events, from any state of the manager in which the next interpreter is one of them: all of
-- them reach an interpreter that exists; an event of an exclusive module goes to interpreter 0 and
-- costs nobody's turn, and the others go to the interpreters in turn, beginning with the next.
pub run_calls_lem :
    (es : List (Option EventType)) (s : SnakePit)
    → s.next_index < s.snakes
    → (t : SnakePit) × (run_calls es s
        ≡ done (turns s.active_exclusive_events s.snakes s.next_index es, t))
      × All (IsTarget s.snakes) (turns s.active_exclusive_events s.snakes s.next_index es)
run_calls_lem es s h =
    let some_snake : 0 < s.snakes = omega arith in
    let (t, e) = run_calls-turns es s.next_index s some_snake (sym (mod-eq_of_lt h)) in
    (t, e, turns-IsTarget s.active_exclusive_events s.snakes s.next_index es some_snake)
