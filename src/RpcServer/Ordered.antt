-- ===== src/RpcServer/Ordered.antt =====
-- The order of what a run of gokit/transport/rpc/server.go does, and where it registers.
use jkfr.Prelude.{◌≡◌, ◌⊎◌, Option, none, some, List, [], ◌∷◌}
use jkfr.RpcServer.{
  Event, wrapped_all, listening, starts_registering, naming, serves_gob, serves_json, serves_http,
  serves_own, deregistering, closing,
}

-- What a run has done: nothing that is left, opened a listener, started to register, named the service,
-- called Deregister, and closed the listener.
pub data Phase : Type 0 where
  idle bound at_registry running withdrawn ended : Phase

-- The phase after an event, where the event may happen.
abbrev next_phase : Phase → Event → Option Phase
next_phase idle (wrapped_all m) = some idle
next_phase idle (listening f addr) = some bound
next_phase bound (starts_registering r) = some at_registry
next_phase bound closing = some ended
next_phase at_registry (naming n) = some running
next_phase at_registry deregistering = some withdrawn
next_phase running (serves_gob conn) = some running
next_phase running (serves_json conn) = some running
next_phase running (serves_http path debug) = some running
next_phase running (serves_own n) = some running
next_phase running deregistering = some withdrawn
next_phase withdrawn closing = some ended
next_phase p v = none

unfoldable pub follows : Phase → List Event → Option Phase
follows p [] = some p
follows p (v ∷ vs) = elim (next_phase p v) [ none ↦ none | some q ↦ follows q vs ]

-- The events follow the phases, and the last leaves a run that has opened nothing, or closed it.
abbrev pub IsOrdered : List Event → Type 0
IsOrdered vs = (follows idle vs ≡ some idle) ⊎ (follows idle vs ≡ some ended)
