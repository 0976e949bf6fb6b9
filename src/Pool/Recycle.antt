-- ===== src/Pool/Recycle.antt =====
-- `recycle` of gokit/transport/pool/pool.go: the clients that wait to be closed.
pub mod Invariant
pub mod Drain
pub mod Effect
use jkfr.Prelude.{
  ℕ, suc, zero, ◌+◌, ◌-◌, ◌*◌, min, Bool, true, false, ◌&&◌, ◌||◌, Option, none, some, List, [],
  ◌∷◌, ◌++◌, ltb, leb, ◌==◌, if◌then◌else◌, is_none, length, elem, remove, insert, pos, leb_ℤ,
  ltb_ℤ,
}
use jkfr.Pool.Options.{Options}
use jkfr.Pool.Client.{Client, Env, close, Heap, update}

-- The list and the map hold the same list elements, so both are held as tags. `tokens` is the number
-- of values buffered in chClient, whose capacity is `capacity`.
pub record Recycle : Type 0 where
  pub clients : List ℕ
  pub keys : List ℕ
  pub tokens : ℕ
  pub capacity : ℕ
  pub is_close : Bool

-- new_recycle; the goroutine that it starts is `wake`.
unfoldable pub new_recycle : Options → Recycle
new_recycle o = record {
  clients = [];
  keys = [];
  tokens = 0;
  capacity = min (o.max_cap * 10) 2000;
  is_close = false;
}

abbrev pub close_at : Env → Heap → ℕ → Heap
close_at env h p = update h p (close env (h p)).0

unfoldable pub close_all : Env → Heap → List ℕ → Heap
close_all env h [] = h
close_all env h (t ∷ ts) = close_all env (close_at env h t) ts

-- close, after the exit signal has been received.
unfoldable pub close_recycle : Env → Heap × Recycle → Heap × Recycle
close_recycle env (h, r) = (close_all env h (env.range r.keys), record r { is_close = true })

-- find
unfoldable pub find : Recycle → ℕ → Option ℕ
find r tag = if elem tag r.keys then some tag else none

-- push: the queue is full, so the client that was queued first is removed and closed.
unfoldable pub evict : Env → Heap → Recycle → List ℕ → Heap × Recycle
evict env h r [] = (h, r)
evict env h r (front ∷ rest) =
    (close_at env h front, record r { clients = rest; keys = remove front r.keys })

unfoldable pub enqueue : Env → Heap → Recycle → ℕ → Heap × Recycle
enqueue env h r p =
    let queued = record r { clients = r.clients ++ p ∷ []; keys = insert p r.keys } in
    if ltb r.tokens r.capacity
    then (h, record queued { tokens = r.tokens + 1 })
    else evict env h queued queued.clients

-- push
unfoldable pub push : Env → Heap × Recycle → ℕ → Heap × Recycle
push env (h, r) p =
    if is_none (h p).handle
    then (h, r)
    else let h' = if r.is_close then close_at env h p else h in
      if elem p r.keys then (h', r) else enqueue env h' r p

-- remove
unfoldable pub remove_client : Heap → Recycle → ℕ → Recycle
remove_client h r p =
    if is_none (h p).handle
    then r
    else if elem p r.keys
    then record r { clients = remove p r.clients; keys = remove p r.keys }
    else r

-- A client that nobody uses, or whose reads and writes have timed out.
abbrev pub is_releasable : Options → Env → Client → Bool
is_releasable o env c =
    leb_ℤ c.ref (pos 0)
    || (ltb_ℤ (pos 0) c.ref && ltb (o.read_timeout + o.write_timeout) (env.now - c.req_tm))

unfoldable pub first_releasable : Options → Env → Heap → List ℕ → Option ℕ
first_releasable o env h [] = none
first_releasable o env h (t ∷ ts) =
    if is_releasable o env (h t) then some t else first_releasable o env h ts

abbrev pub front? : List ℕ → Option ℕ
front? [] = none
front? (t ∷ ts) = some t

abbrev when_full : Options → List ℕ → Option ℕ
when_full o ts = if ltb o.max_cap (length ts) then front? ts else none

unfoldable pub get_one_client : Options → Env → Heap → Recycle → Option ℕ
get_one_client o env h r =
    if length r.clients == 0 then none else elim (first_releasable o env h (env.range r.keys)) [
      | some t ↦ some t
      | none ↦ when_full o r.clients
    ]

-- The inner loop of loop_recycle_clients; `none` means that the fuel ran out.
unfoldable pub drain : ℕ → Options → Env → Heap × Recycle → Option (Heap × Recycle)
drain zero o env (h, r) = none
drain (suc fuel) o env (h, r) = elim (get_one_client o env h r) [
  | some t ↦ drain fuel o env (close_at env h t, remove_client h r t)
  | none ↦ some (h, r)
]

-- What wakes the goroutine: a value from chClient, or the ticker.
pub data Wake : Type 0 where
  queued ticked : Wake

unfoldable pub drain_all : Options → Env → Heap × Recycle → Option (Heap × Recycle)
drain_all o env (h, r) = drain (suc (length r.clients)) o env (h, r)

-- One round of the outer loop of loop_recycle_clients, where nothing else happens between the receiving
-- and the end of the round; Calls/Overlap takes it apart. A value is received only if one is buffered.
unfoldable pub wake : Options → Env → Wake → Heap × Recycle → Option (Heap × Recycle)
wake o env queued (h, r) =
    let r' = record r { tokens = r.tokens - 1 } in
    if leb (length r.clients) o.max_cap then some (h, r') else drain_all o env (h, r')
wake o env ticked (h, r) = drain_all o env (h, r)
