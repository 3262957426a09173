-- ===== src/Peers/RoundRobin.antt =====
-- The dispatch to the workers.
use chatripper.Common.{
  ℕ, ◌+◌, ◌%◌, ◌<◌, ◌≡◌, sym, ap, subst, ◌∙◌, List, [], ◌∷◌, arith, if◌then◌else◌,
}
use native.Mathlib.Nat.{mod-eq_of_lt, mod-add-mod, mod-lt, add-zero, add_assoc}
use chatripper.Peers.{
  Server, incoming_connection, Event, arrives, handled, upgraded, aborted, disconnected, step, run,
}

-- Whether the event is a connection that is let in.
unfoldable pub admitted : Server → Event → ℕ
admitted s (arrives d ip port) = if (incoming_connection d ip port s).1 then 1 else 0
admitted s (handled d bound) = 0
admitted s (upgraded d) = 0
admitted s (aborted d) = 0
admitted s (disconnected d) = 0

unfoldable admissions : Server → List Event → ℕ
unfolding admitted
admissions s [] = 0
admissions s (e ∷ es) = admitted s e + admissions (step s e) es

-- An event moves the pointer on by one if it lets a connection in, and leaves it otherwise.
module _ (s : Server) where
  step-next :
      (e : Event)
      → s.next_worker < s.thread_count
      → ((step s e).next_worker ≡ (s.next_worker + admitted s e) % s.thread_count)
        × ((step s e).thread_count ≡ s.thread_count)
  unfolding step admitted
  step-next (arrives d ip port) h =
      ground (arith, mod-eq_of_lt {n = s.next_worker} {m = s.thread_count} h)
  step-next (handled d bound) h =
      ground (arith, mod-eq_of_lt {n = s.next_worker} {m = s.thread_count} h)
  step-next (upgraded d) h = ground (arith, mod-eq_of_lt {n = s.next_worker} {m = s.thread_count} h)
  step-next (aborted d) h = ground (arith, mod-eq_of_lt {n = s.next_worker} {m = s.thread_count} h)
  step-next (disconnected d) h =
      ground (arith, mod-eq_of_lt {n = s.next_worker} {m = s.thread_count} h)

-- Connections are dealt to the workers in turn: after any events the pointer stands as many places
-- on as connections were let in, around the number of threads, and it names a worker.
run-next :
    (s : Server) (es : List Event)
    → s.next_worker < s.thread_count
    → ((run s es).next_worker ≡ (s.next_worker + admissions s es) % s.thread_count)
      × ((run s es).next_worker < s.thread_count)
unfolding run admissions
run-next s [] h = (sym (ap (λ n. n % s.thread_count) (add-zero s.next_worker) ∙ mod-eq_of_lt h), h)
run-next s (e ∷ es) h =
    let (next, threads) = step-next s e h in
    let pos : 0 < s.thread_count = omega arith in
    let below : (step s e).next_worker < (step s e).thread_count =
      rw (next, threads) (mod-lt (s.next_worker + admitted s e) pos) in
    let (later, last) = run-next (step s e) es below in
    (
      later
          ∙ simp (threads, next)
              (mod-add-mod (s.next_worker + admitted s e) s.thread_count (admissions (step s e) es)
                ∙ ap (λ n. n % s.thread_count)
                    (add_assoc s.next_worker (admitted s e) (admissions (step s e) es))),
      subst (λ k. (run (step s e) es).next_worker < k) threads last,
    )
