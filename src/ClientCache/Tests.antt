-- ===== src/ClientCache/Tests.antt =====
-- Runs of GetRPCClient and RegistryClient of gokit/transport/rpc/client.go, and the theorem at one.
use jkfr.Prelude.{ℕ, ◌≤◌, ◌≡◌, refl, true, some, List, [], ◌∷◌, lookup, delete}
use jkfr.ClientCache.{
  NamedClients, no_clients, returned, get_rpc_client, close_named, registry_client,
}
use jkfr.ClientCache.Keep.{IsKept}
use jkfr.ClientCache.Once.{IsInside, Reach, begins, runs, get_rpc_client-once}

what_runs : Unit {0}
unfolding get_rpc_client close_named registry_client delete
what_runs = tt

-- The goroutines of a list take one step each for the name 7, and NewClient makes a client if asked.
abbrev run : List ℕ → NamedClients → NamedClients
run [] s = s
run (t ∷ ts) s = run ts (get_rpc_client t 7 true s)

-- Both miss the client, and 1 takes the lock first.
abbrev race : List ℕ
race = 1 ∷ 2 ∷ 1 ∷ 2 ∷ 1 ∷ 1 ∷ 1 ∷ 1 ∷ 2 ∷ 2 ∷ []

run-Reach : (ts : List ℕ) (s : NamedClients) → Reach s → Reach (run ts s)
run-Reach [] s r = r
run-Reach (t ∷ ts) s r = run-Reach ts (get_rpc_client t 7 true s) (runs t 7 true s r)

both_returned :
    ((run race no_clients).at 1 ≡ returned 7 1) × ((run race no_clients).at 2 ≡ returned 7 1)
unfolding what_runs
both_returned = (refl, refl)

-- RegistryClient between the second look and saveClient: the registered client is overwritten, and it
-- has not been closed.
registered_lost :
    let s = run (1 ∷ 1 ∷ []) (registry_client 7 90 (run (1 ∷ 1 ∷ 1 ∷ []) no_clients)) in
    (lookup 7 s.name2client ≡ some 1) × (s.closed ≡ [])
unfolding what_runs
registered_lost = (refl, refl)

get_rpc_client-once_example :
    let s = run race no_clients in
    ((t u n c d : ℕ) → s.at t ≡ returned n c → s.at u ≡ returned n d → c ≡ d)
    × ((t u : ℕ) → IsInside (s.at t) → IsInside (s.at u) → t ≡ u)
    × ((c : ℕ) → 1 ≤ c → c ≤ s.made → IsKept s c)
get_rpc_client-once_example =
    get_rpc_client-once (run race no_clients) (run-Reach race no_clients begins)
