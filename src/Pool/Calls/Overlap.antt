-- ===== src/Pool/Calls/Overlap.antt =====
-- The calls of a pool of gokit/transport/pool/pool.go that overlap, until Close: what each does under
-- one lock is a step of its own, and the steps of all goroutines mix in any order.
pub mod Shuts
pub mod Covered
pub mod Counted
pub mod Queue
use jkfr.Prelude.{
  ℕ, ◌-◌, ◌≤◌, ◌<◌, ◌≡◌, Bool, true, false, Option, none, some, List, [], ◌∷◌, ◌++◌, leb,
  if◌then◌else◌, length, get_elem?, ℤ,
}
use jkfr.Pool.Options.{Options}
use jkfr.Pool.Client.{Client, Connected, Env, Heap, connect_locked, add_ref, close}
use jkfr.Pool.Recycle.{Recycle, remove_client, get_one_client}
use jkfr.Pool.Clients.{
  Clients, written, push_client, move_recycle, remove_if_idle, choose, new_clients,
}
use jkfr.Pool.Clients.Keep.{Factories}
use jkfr.Pool.Calls.{edit, use_client}

-- `unpushed` has a client for each goroutine that has connected it and has not pushed it yet, and
-- `in_round` says that the goroutine of the recycle list is in a round for which it received a value.
pub record Overlap : Type 0 where
  pub clients : Clients
  pub unpushed : List ℕ
  pub in_round : Bool

abbrev pub with_state : Overlap → Clients → Overlap
with_state x s = record x { clients = s }

abbrev pub fresh_first : Bool → ℕ → List ℕ → List ℕ
fresh_first fresh p ps = if fresh then p ∷ ps else ps

abbrev pub connected_at : Overlap → ℕ → Connected → Overlap
connected_at x p (c, fresh, err) = record x {
  clients = written x.clients p c;
  unpushed = fresh_first fresh p x.unpushed;
}

-- Connect under the lock of the client, in get and init_clients; if it is new, push is still to come.
unfoldable pub dial_at : Env → Overlap → ℕ → Overlap
dial_at env x p = connected_at x p (connect_locked env p (x.clients.heap p))

abbrev pub with_list : Overlap → Bool → Recycle → Overlap
with_list x round r = record x { clients = record x.clients { recycle = some r }; in_round = round }

-- `<-r.chClient`
abbrev pub received : Recycle → Recycle
received r = record r { tokens = r.tokens - 1 }

-- One step of a goroutine. A client is any pointer that the goroutine may have kept from before.
pub data Section : Overlap → Overlap → Type 0 where
  -- get: min_get or round_get, and Connect; then push, here and in init_clients
  chooses : (x : Overlap) → Section x (with_state x (choose x.clients).0)
  dials : (env : Env) (x : Overlap) (p : ℕ) → Factories env → Section x (dial_at env x p)
  enters :
      (env : Env) (x : Overlap) (p : ℕ) (ps qs : List ℕ)
      → x.unpushed ≡ ps ++ p ∷ qs
      → Section x (record x { clients = push_client env x.clients p; unpushed = ps ++ qs })
  -- Get and Put: the counter and the time, and what put_bad does
  uses : (env : Env) (x : Overlap) (p : ℕ) → Section x (with_state x (use_client env x.clients p))
  counts :
      (d : ℤ) (x : Overlap) (p : ℕ)
      → Section x (with_state x (edit x.clients p (add_ref d (x.clients.heap p))))
  moves :
      (env : Env) (x : Overlap) (p : ℕ) → Section x (with_state x (move_recycle env x.clients p).0)
  shuts :
      (env : Env) (x : Overlap) (p : ℕ)
      → Section x (with_state x (edit x.clients p (close env (x.clients.heap p)).0))
  -- the goroutine of the slots, and the flag of init_clients
  clears :
      (env : Env) (x : Overlap) (p : ℕ) → Section x (with_state x (remove_if_idle env x.clients p))
  flags : (b : Bool) (x : Overlap) → Section x (with_state x (record x.clients { initting = b }))
  -- the goroutine of the recycle list: it receives a value, finds the list short enough, or takes
  -- clients out until get_one_client finds none
  receives :
      (x : Overlap) (r : Recycle)
      → x.clients.recycle ≡ some r
      → x.in_round ≡ false
      → 1 ≤ r.tokens
      → Section x (with_list x true (received r))
  passes :
      (x : Overlap) (r : Recycle)
      → x.clients.recycle ≡ some r
      → length r.clients ≤ x.clients.o.max_cap
      → Section x (with_list x false r)
  takes :
      (x : Overlap) (r : Recycle) (p : ℕ)
      → x.clients.recycle ≡ some r
      → Section x (with_list x x.in_round (remove_client x.clients.heap r p))
  rests :
      (env : Env) (x : Overlap) (r : Recycle)
      → x.clients.recycle ≡ some r
      → get_one_client x.clients.o env x.clients.heap r ≡ none
      → Section x (with_list x false r)

-- What NewPool begins with, before init_clients.
abbrev pub begun : Options → Heap → ℕ → Overlap
begun o h tag = record { clients = new_clients o h tag; unpushed = []; in_round = false }

pub data Mixed (x : Overlap) : Overlap → Type 0 where
  here : Mixed x x
  next : {y z : Overlap} → Mixed x y → Section y z → Mixed x z
