-- ===== src/Examples/Peers.antt =====
-- Admission: irc/threaded_server.cpp and irc/worker.cpp at work.
use chatripper.Common.{true, List, [], ◌∷◌}
use chatripper.Peers.{Server, Event, arrives, handled, run, init}
use chatripper.Peers.Counts.{IsExact, run-init-IsExact}

abbrev two_events : List Event
two_events = arrives 7 99 6667 ∷ handled 7 true ∷ []

run-init-IsExact_example : IsExact (run (init 2 1 8080) two_events)
run-init-IsExact_example = run-init-IsExact 2 1 8080 two_events

abbrev one_peer : Server
one_peer = run (init 2 1 8080) two_events

abbrev two_threads : Server
two_threads = init 2 1 8080
