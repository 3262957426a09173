-- ===== src/Peers/Counts.antt =====
-- The count of an address is the number of its connections, at whatever stage.
use chatripper.Common.{
  ℕ, ◌+◌, ◌-◌, ◌≤◌, ◌≡◌, ◌≢◌, Bool, true, false, some, List, [], ◌∷◌, ◌++◌, arith, Map, find,
  insert, find-insert, find-remove, nat_key, nat_eqb, leb, if◌then◌else◌, Option-cases, inl, inr,
}
use chatripper.Peers.{
  Peer, Server, active_of, release, incoming_connection, find_peer, remove_peer, Event, arrives,
  handled, upgraded, aborted, disconnected, on_handled, on_upgraded, on_aborted, on_disconnected,
  step, run, init,
}

-- How many of the connections come from the address.
unfoldable pub count : ℕ → List Peer → ℕ
count ip [] = 0
count ip (p ∷ ps) = (if nat_eqb p.ip ip then 1 else 0) + count ip ps

count-append : (ip : ℕ) (ps qs : List Peer) → count ip (ps ++ qs) ≡ count ip ps + count ip qs
unfolding count
count-append ip [] qs = omega arith
count-append ip (p ∷ ps) qs = omega (arith, count-append ip ps qs)

count-remove :
    (ip d : ℕ) (ps : List Peer) (p : Peer)
    → find_peer d ps ≡ some p
    → count ip ps ≡ (if nat_eqb p.ip ip then 1 else 0) + count ip (remove_peer d ps)
unfolding count find_peer remove_peer
count-remove ip d [] p h = cc
count-remove ip d (q ∷ ps) p h = ground (arith, count-remove ip d ps p)

active_of-insert :
    (ip j n : ℕ) (m : Map ℕ ℕ)
    → active_of j (insert ip n m) ≡ (if nat_eqb ip j then n else active_of j m)
unfolding active_of
active_of-insert ip j n m = ground (arith, find-insert ip j n m)

active_of-release :
    (ip j : ℕ) (m : Map ℕ ℕ)
    → active_of j (release ip m) ≡ (if nat_eqb ip j then active_of j m - 1 else active_of j m)
unfolding active_of release
active_of-release ip j m =
    ground (arith, find-remove ip j m, find-insert ip j (active_of ip m - 1) m)

-- The connections of an address: queued, in a handshake or open.
abbrev pub live : ℕ → Server → ℕ
live ip s = count ip s.queued + count ip s.handshakes + count ip s.connections

-- The places that an address holds: those of its connections, and of each handshake that failed.
abbrev pub held : ℕ → Server → ℕ
held ip s = live ip s + count ip s.leaked

-- The count of each known address is exact and within the limit.
pub record IsExact (s : Server) : Type 0 where
  exact : (ip : ℕ) → ip ≢ 0 → active_of ip s.active ≡ held ip s
  bounded : (ip : ℕ) → ip ≢ 0 → active_of ip s.active ≤ s.max_per_ip

module _ (s : Server) (v : IsExact s) where
  arrives-IsExact : (d ip port : ℕ) → IsExact (incoming_connection d ip port s).0
  unfolding incoming_connection count
  arrives-IsExact d ip port = record {
    exact = λ j ne. ground (
      arith,
      v.exact j ne,
      active_of-insert ip j (active_of ip s.active) s.active,
      active_of-insert ip j (active_of ip s.active + 1) s.active,
      count-append j s.queued
          (record { descriptor = d; ip = ip; port = port; worker = s.next_worker } ∷ []),
    );
    bounded = λ j ne. ground (
      arith,
      v.bounded j ne,
      active_of-insert ip j (active_of ip s.active) s.active,
      active_of-insert ip j (active_of ip s.active + 1) s.active,
    );
  }

  handled-IsExact : (d : ℕ) (bound : Bool) → IsExact (on_handled d bound s)
  unfolding on_handled count
  handled-IsExact d bound = elim (Option-cases (find_peer d s.queued)) [
    | inl absent ↦ rw (absent, on_handled) v
    | inr (p, found) ↦ record {
      exact = λ j ne. ground (
        arith,
        found,
        v.exact j ne,
        active_of-release p.ip j s.active,
        count-remove j d s.queued p found,
        count-append j s.handshakes (p ∷ []),
        count-append j s.connections (p ∷ []),
      );
      bounded = λ j ne. ground (arith, found, v.bounded j ne, active_of-release p.ip j s.active);
    }
  ]

  upgraded-IsExact : (d : ℕ) → IsExact (on_upgraded d s)
  unfolding on_upgraded count
  upgraded-IsExact d = elim (Option-cases (find_peer d s.handshakes)) [
    | inl absent ↦ rw (absent, on_upgraded) v
    | inr (p, found) ↦ record {
      exact = λ j ne. ground (
        arith,
        found,
        v.exact j ne,
        count-remove j d s.handshakes p found,
        count-append j s.connections (p ∷ []),
      );
      bounded = λ j ne. ground (arith, found, v.bounded j ne);
    }
  ]

  aborted-IsExact : (d : ℕ) → IsExact (on_aborted d s)
  unfolding on_aborted count
  aborted-IsExact d = elim (Option-cases (find_peer d s.handshakes)) [
    | inl absent ↦ rw (absent, on_aborted) v
    | inr (p, found) ↦ record {
      exact = λ j ne. ground (
        arith,
        found,
        v.exact j ne,
        count-remove j d s.handshakes p found,
        count-append j s.leaked (p ∷ []),
      );
      bounded = λ j ne. ground (arith, found, v.bounded j ne);
    }
  ]

  disconnected-IsExact : (d : ℕ) → IsExact (on_disconnected d s)
  unfolding on_disconnected count
  disconnected-IsExact d = elim (Option-cases (find_peer d s.connections)) [
    | inl absent ↦ rw (absent, on_disconnected) v
    | inr (p, found) ↦ record {
      exact = λ j ne. ground (
        arith,
        found,
        v.exact j ne,
        active_of-release p.ip j s.active,
        count-remove j d s.connections p found,
      );
      bounded = λ j ne. ground (arith, found, v.bounded j ne, active_of-release p.ip j s.active);
    }
  ]

step-IsExact : (s : Server) (e : Event) → IsExact s → IsExact (step s e)
unfolding step
step-IsExact s (arrives d ip port) v = arrives-IsExact s v d ip port
step-IsExact s (handled d bound) v = handled-IsExact s v d bound
step-IsExact s (upgraded d) v = upgraded-IsExact s v d
step-IsExact s (aborted d) v = aborted-IsExact s v d
step-IsExact s (disconnected d) v = disconnected-IsExact s v d

run-IsExact : (s : Server) (es : List Event) → IsExact s → IsExact (run s es)
unfolding run
run-IsExact s [] v = v
run-IsExact s (e ∷ es) v = run-IsExact (step s e) es (step-IsExact s e v)

init-IsExact : (threads max port : ℕ) → IsExact (init threads max port)
unfolding init active_of find count
init-IsExact threads max port = record {
  exact = λ j ne. omega arith;
  bounded = λ j ne. omega arith;
}

-- In whatever order connections arrive, are handled, upgraded, aborted in their handshake or closed,
-- the count of each known address is the number of its connections that are queued, in a handshake
-- or open, and of its handshakes that failed, which nobody takes off again; and it never passes the
-- limit.
pub run-init-IsExact :
    (threads max port : ℕ) (es : List Event) → IsExact (run (init threads max port) es)
run-init-IsExact threads max port es = run-IsExact _ es (init-IsExact threads max port)

-- A connection of a known address is refused exactly if the address has reached the limit; then
-- nothing is queued. Else it is queued once, and counted.
incoming_lem :
    (d ip port : ℕ) (s : Server)
    → IsExact s
    → ip ≢ 0
    → ((incoming_connection d ip port s).1 ≡ (if leb s.max_per_ip (held ip s) then false else true))
      × (held ip (incoming_connection d ip port s).0
          ≡ (if leb s.max_per_ip (held ip s) then held ip s else held ip s + 1))
unfolding incoming_connection count
incoming_lem d ip port s v ne = (
  ground (arith, v.exact ip ne),
  ground (
    arith,
    v.exact ip ne,
    count-append ip s.queued
        (record { descriptor = d; ip = ip; port = port; worker = s.next_worker } ∷ []),
  ),
)
