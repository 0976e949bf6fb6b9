-- ===== src/Pool/Clients.antt =====
-- `clients` of gokit/transport/pool/pool.go: the slots of a pool, and the map of the connected ones.
-- Each method is one step here, also get and init_clients, which give the lock of the client back before
-- push takes mtClients: no other call gets between. Calls/Overlap takes them apart. mtClients, a
-- read-write lock, is left out. Indexing is in range, since InitCap is at most MaxCap, the length of `cs`: a loop over the
-- indices below InitCap is a loop over the first InitCap slots.
pub mod Slots
pub mod Keep
pub mod Retire
pub mod Choice
pub mod Get
pub mod New
pub mod Init
pub mod Shut
use jkfr.Prelude.{
  ℕ, zero, suc, ◌+◌, ◌-◌, ◌*◌, ◌%◌, ◌^◌, ◌≡◌, Bool, true, false, not, ◌&&◌, ◌||◌, Option, none,
  some, List, [], ◌∷◌, ltb, leb, ◌==◌, if◌then◌else◌, is_some, length, get_elem?, set, take, drop,
  elem, remove, insert, ℤ, pos, leb_ℤ, ltb_ℤ,
}
use jkfr.Pool.Options.{Options, Error, second}
use jkfr.Pool.Client.{
  Client, Connected, Env, Heap, update, new_client, is_open, is_idle_time_out, connect, close,
  destroy,
}
use jkfr.Pool.Recycle
use jkfr.Pool.Recycle.{Recycle, new_recycle, push, close_recycle}

-- `tag` is the package's counter, `cs` the tags of the slots' clients, `pc2c` the keys of the map from
-- tags to connected clients.
pub record Clients : Type 0 where
  pub heap : Heap
  pub tag : ℕ
  pub cs : List ℕ
  pub pc2c : List ℕ
  pub index : ℕ
  pub initting : Bool
  pub is_close : Bool
  pub recycle : Option Recycle
  pub o : Options

abbrev pub client : Clients → ℕ → Client
client s p = s.heap p

-- new_clients: a fresh client for each of the `n` slots from `i` on.
unfoldable pub make_slots : ℕ → ℕ → Heap → ℕ → Heap × ℕ × List ℕ
make_slots zero i h tag = (h, tag, [])
make_slots (suc n) i h tag =
    let (h', tag', cs) = make_slots n (suc i) (update h (suc tag) (new_client i)) (suc tag) in
    (h', tag', suc tag ∷ cs)

-- new_clients
unfoldable pub new_clients : Options → Heap → ℕ → Clients
new_clients o h tag =
    let (h', tag', cs) = make_slots o.max_cap 0 h tag in
    record {
      heap = h';
      tag = tag';
      cs = cs;
      pc2c = [];
      index = 0;
      initting = false;
      is_close = false;
      recycle = some (new_recycle o);
      o = o;
    }

-- push
unfoldable pub push_client : Env → Clients → ℕ → Clients
push_client env s p =
    if s.is_close
    then record s { heap = update s.heap p (close env (client s p)).0 }
    else record s { pc2c = insert p s.pc2c }

-- The state, with the error that an operation returns.
abbrev pub Outcome : Type 0
Outcome = Clients × Option Error

abbrev pub written : Clients → ℕ → Client → Clients
written s p c = record s { heap = update s.heap p c }

abbrev pub pushed_if : Env → Clients → ℕ → Bool → Clients
pushed_if env s p fresh = if fresh then push_client env s p else s

-- One round of the loop of init_clients, after `c.Connect()`, when no other call gets between that and
-- push.
unfoldable pub init_with : Env → Clients → ℕ → Connected → Outcome
init_with env s p (c, fresh, some e) = (written s p c, some e)
init_with env s p (c, fresh, none) = (pushed_if env (written s p c) p fresh, none)

unfoldable pub init_one : Env → Clients → ℕ → Outcome
init_one env s p =
    if is_open (client s p) then (s, none) else init_with env s p (connect env p (client s p))

-- The loop of init_clients: it returns at the first error.
unfoldable pub init_slots : Env → Clients → List ℕ → Outcome
init_slots env s [] = (s, none)
init_slots env s (p ∷ ps) = elim ((init_one env s p).1) [
  | some e ↦ ((init_one env s p).0, some e)
  | none ↦ init_slots env (init_one env s p).0 ps
]

-- The end of init_clients: the flag is taken back only where the loop has run to its end.
abbrev pub init_end : Outcome → Outcome
init_end (s, some e) = (s, some e)
init_end (s, none) = (record s { initting = false }, none)

abbrev pub flagged : Clients → Clients
flagged s = record s { initting = true }

-- init_clients: the flag is set by a compare-and-swap, and a set flag ends the call.
unfoldable pub init_clients : Env → Clients → Outcome
init_clients env s =
    if s.initting then (s, none) else init_end (init_slots env (flagged s) (take s.o.init_cap s.cs))

-- The first client of a list that nobody uses.
unfoldable pub first_idle : Heap → List ℕ → Option ℕ
first_idle h [] = none
first_idle h (p ∷ ps) = if leb_ℤ (h p).ref (pos 0) then some p else first_idle h ps

abbrev pub max_int64 : ℤ
max_int64 = pos 9_223_372_036_854_775_807

-- The loop of min_get, with minRef and c.
unfoldable pub least_ref : Heap → ℤ → Option ℕ → List ℕ → Option ℕ
least_ref h min_ref c [] = c
least_ref h min_ref c (p ∷ ps) =
    least_ref h (if ltb_ℤ (h p).ref min_ref then (h p).ref else min_ref)
      (if ltb_ℤ (h p).ref min_ref then some p else c) ps

abbrev or_else : Option ℕ → Option ℕ → Option ℕ
or_else (some p) q = some p
or_else none q = q

-- min_get; none is a nil client.
unfoldable pub min_get : Clients → Option ℕ
min_get s =
    or_else (first_idle s.heap (take s.o.init_cap s.cs))
      (least_ref s.heap max_int64 none (take s.o.max_cap s.cs))

-- round_get; the index is a uint64 that wraps, and an empty slice faults.
unfoldable pub round_get : Clients → Clients × Option ℕ
round_get s = elim (first_idle s.heap (take s.o.init_cap s.cs)) [
  | some p ↦ (s, some p)
  | none ↦ (record s { index = (s.index + 1) % 2 ^ 64 }, get_elem? s.cs (s.index % length s.cs))
]

-- get_one_valid_client: the key that the range meets first.
unfoldable pub get_one_valid_client : Env → Clients → Option ℕ
get_one_valid_client env s = Recycle.front? (env.range s.pc2c)

-- What get returns: a client, an error, or a fault at a nil client.
pub data Got : Type 0 where
  got : ℕ → Got
  failed : Error → Got
  fault : Got

-- get, after `c.Connect()` on the chosen slot, when no other call gets between that and push. The connection that get_one_valid_client finds is only
-- tested for nil: the `c :=` of the source declares another variable, and the chosen slot is returned.
unfoldable pub answer : Env → Clients → ℕ → Connected → Clients × Got
answer env s p (c, fresh, none) = (pushed_if env (written s p c) p fresh, got p)
answer env s p (c, fresh, some e) = elim (get_one_valid_client env s) [
  | none ↦ (written s p c, failed e)
  | some other ↦ (pushed_if env (written s p c) p fresh, got p)
]

unfoldable pub get_chosen : Env → Clients → ℕ → Clients × Got
get_chosen env s p = answer env s p (connect env p (client s p))

abbrev pub choose : Clients → Clients × Option ℕ
choose s = if leb s.o.max_cap 100 then (s, min_get s) else round_get s

-- get, with what has been chosen; a nil client faults at its method.
abbrev pub get_from : Env → Clients → Option ℕ → Clients × Got
get_from env s none = (s, fault)
get_from env s (some p) = get_chosen env s p

unfoldable pub get : Env → Clients → Clients × Got
get env s = get_from env (choose s).0 (choose s).1

-- `cs.cs[c.index] = new_client(cs.o, c.index)` and `delete(cs.pc2c, tag)`.
unfoldable pub retire : Clients → ℕ → Clients
retire s p =
    let i = (client s p).index in
    record s {
      heap = update s.heap (suc s.tag) (new_client i);
      tag = suc s.tag;
      cs = set s.cs i (suc s.tag);
      pc2c = remove p s.pc2c;
    }

-- remove
unfoldable pub remove_tag : Clients → ℕ → Clients
remove_tag s p = if elem p s.pc2c then retire s p else s

unfoldable pub find_client : Clients → ℕ → Option ℕ
find_client s p =
    if elem p s.pc2c then some p else elim s.recycle [ none ↦ none | some r ↦ Recycle.find r p ]

abbrev pub close_client : Env → Clients → ℕ → Clients
close_client env s p = record s { heap = update s.heap p (close env (client s p)).0 }

-- The client is taken from its slot, and queued.
unfoldable pub retire_to : Env → Clients → Recycle → ℕ → Clients
retire_to env s r p =
    let s' = retire s p in
    let (h, r') = push env (s'.heap, r) p in record s' { heap = h; recycle = some r' }

-- move_recycle
unfoldable pub move_recycle : Env → Clients → ℕ → Clients × Option ℕ
move_recycle env s p =
    if elem p s.pc2c
    then elim s.recycle [
      | none ↦ (close_client env (record s { pc2c = remove p s.pc2c }) p, some p)
      | some r ↦ (retire_to env s r p, some p)
    ]
    else elim s.recycle [ none ↦ (s, none) | some r ↦ (s, Recycle.find r p) ]

-- remove_client_if_idle_time_out: what keeps a client.
unfoldable pub is_kept : Options → Env → Client → Bool
is_kept o env c =
    not (is_open c)
    || (ltb_ℤ (pos 0) c.ref && leb (env.now - c.req_tm) (o.read_timeout + o.write_timeout))
    || not (is_idle_time_out o env c)

-- remove_client_if_idle_time_out, at the client of the slot
unfoldable pub remove_if_idle : Env → Clients → ℕ → Clients
remove_if_idle env s p =
    if is_kept s.o env (client s p)
    then s
    else elim s.recycle [ some r ↦ retire_to env s r p | none ↦ close_client env s p ]

unfoldable pub valid_count : Clients → ℕ
valid_count s = length s.pc2c

-- clear_idle_time_out_client, over the slots from InitCap on
unfoldable pub clear_slots : Env → Clients → List ℕ → Clients
clear_slots env s [] = s
clear_slots env s (p ∷ ps) =
    let rest = clear_slots env (remove_if_idle env s p) ps in
    if leb (valid_count s) s.o.init_cap then s else rest

unfoldable pub clear_idle : Env → Clients → Clients
clear_idle env s = clear_slots env s (drop s.o.init_cap s.cs)

abbrev pub minute : ℕ
minute = 60 * second

-- One tick of loop_remove_idle_time_out_client, which keeps the time of the last clearing. The
-- goroutine that it starts for init_clients runs before the clearing.
unfoldable pub idle_tick : Env → Clients → ℕ → Clients × ℕ
idle_tick env s pre =
    let s' = (init_clients env s).0 in
    if ltb (env.now - pre) minute then (s', pre) else (clear_idle env s', env.now)

-- The loop of close: it breaks at the first error.
unfoldable pub destroy_slots : Env → Heap → List ℕ → Heap × Option Error
destroy_slots env h [] = (h, none)
destroy_slots env h (p ∷ ps) =
    let h' = update h p (destroy env (h p)).0 in
    let rest = destroy_slots env h' ps in
    elim ((destroy env (h p)).1) [ some e ↦ (h', some e) | none ↦ rest ]

abbrev shut_recycle : Env → Heap → Option Recycle → Heap
shut_recycle env h none = h
shut_recycle env h (some r) = (close_recycle env (h, r)).0

-- close, after the exit signal has been received
unfoldable pub close_clients : Env → Clients → Outcome
close_clients env s =
    let (h, e) = destroy_slots env s.heap s.cs in
    (
      record s { heap = shut_recycle env h s.recycle; pc2c = []; recycle = none; is_close = true },
      e,
    )
