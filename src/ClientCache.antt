-- ===== src/ClientCache.antt =====
-- The clients by name of gokit/transport/rpc/client.go: GetRPCClient, called by many goroutines at the
-- same time, and Close and RegistryClient. A step of a goroutine runs to its next lock or unlock.
-- Names, clients and goroutines are numbers.
pub mod Keep
pub mod Once
mod Tests
use jkfr.Prelude.{
  ℕ, suc, Bool, true, false, Option, none, some, List, [], ◌∷◌, ◌==◌, if◌then◌else◌, lookup, delete,
}

-- Where a goroutine stands in GetRPCClient(name): `missed` and `created` before and after NewClient,
-- `saved` before mtNewClient is given back.
pub data Phase : Type 0 where
  called : Phase
  waiting locked missed : ℕ → Phase
  created saved returned : ℕ → ℕ → Phase
  failed : Phase

-- `holder` is the goroutine that holds mtNewClient, `made` counts the clients that NewClient has made,
-- and `closed` lists those that have been closed.
pub record NamedClients : Type 0 where
  pub name2client : List (ℕ × ℕ)
  pub holder : Option ℕ
  pub at : ℕ → Phase
  pub made : ℕ
  pub closed : List ℕ

abbrev pub no_clients : NamedClients
no_clients = record { name2client = []; holder = none; at = λ t. called; made = 0; closed = [] }

abbrev pub phase_at : (ℕ → Phase) → ℕ → Phase → ℕ → Phase
phase_at phases t p u = if t == u then p else phases u

abbrev pub moved : ℕ → Phase → NamedClients → NamedClients
moved t p s = record s { at = phase_at s.at t p }

-- The deferred Unlock, and the return.
abbrev pub released : ℕ → Phase → NamedClients → NamedClients
released t p s = record (moved t p s) { holder = none }

-- The first getCacheClient
abbrev pub first_look : ℕ → ℕ → Option ℕ → NamedClients → NamedClients
first_look t name (some c) s = moved t (returned name c) s
first_look t name none s = moved t (waiting name) s

-- mtNewClient.Lock()
abbrev pub locks : ℕ → ℕ → Option ℕ → NamedClients → NamedClients
locks t name (some u) s = s
locks t name none s = record (moved t (locked name) s) { holder = some t }

-- The second getCacheClient
abbrev pub second_look : ℕ → ℕ → Option ℕ → NamedClients → NamedClients
second_look t name (some c) s = released t (returned name c) s
second_look t name none s = moved t (missed name) s

-- NewClient, which may fail
abbrev pub creates : ℕ → ℕ → Bool → NamedClients → NamedClients
creates t name true s = record (moved t (created name (suc s.made)) s) { made = suc s.made }
creates t name false s = released t failed s

-- saveClient
abbrev pub saves : ℕ → ℕ → ℕ → NamedClients → NamedClients
saves t name c s = record (moved t (saved name c) s) { name2client = (name, c) ∷ s.name2client }

abbrev pub advanced : ℕ → ℕ → Bool → NamedClients → Phase → NamedClients
advanced t name ok s called = first_look t name (lookup name s.name2client) s
advanced t name ok s (waiting n) = locks t n s.holder s
advanced t name ok s (locked n) = second_look t n (lookup n s.name2client) s
advanced t name ok s (missed n) = creates t n ok s
advanced t name ok s (created n c) = saves t n c s
advanced t name ok s (saved n c) = released t (returned n c) s
advanced t name ok s (returned n c) = s
advanced t name ok s failed = s

-- GetRPCClient: the next step of the goroutine `t`, which asks for `name`. `ok` tells whether NewClient
-- makes a client, if this is its step.
unfoldable pub get_rpc_client : ℕ → ℕ → Bool → NamedClients → NamedClients
get_rpc_client t name ok s = advanced t name ok s (s.at t)

-- Close, of a client by its name
unfoldable pub close_named : ℕ → NamedClients → NamedClients
close_named name s = elim (lookup name s.name2client) [
  | none ↦ s
  | some c ↦ record s { name2client = delete name s.name2client; closed = c ∷ s.closed }
]

-- RegistryClient
unfoldable pub registry_client : ℕ → ℕ → NamedClients → NamedClients
registry_client name c s =
    let closed_old = close_named name s in
    record closed_old { name2client = (name, c) ∷ closed_old.name2client }
