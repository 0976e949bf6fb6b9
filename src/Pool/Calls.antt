-- ===== src/Pool/Calls.antt =====
-- `Pool` of gokit/transport/pool/pool.go: the exported calls.
-- mtClose is a read-write lock on which every call but Close takes a read lock if it can; Close takes
-- the write lock and never releases it, so `locked` says that the pool has been closed.
pub mod Keep
pub mod Trace
pub mod Count
pub mod Start
pub mod Uses
pub mod Overlap
use jkfr.Prelude.{
  ℕ, Bool, true, false, Option, none, some, if◌then◌else◌, is_none, ltb, ℤ, pos, negsuc,
}
use jkfr.Pool.Options.{Options, Error, err_closed, err_not_found, repair, validate}
use jkfr.Pool.Client.{Client, Env, Heap, update, close, add_ref}
use jkfr.Pool.Clients.{
  Clients, Outcome, Got, got, failed, fault, new_clients, init_clients, get, get_one_valid_client,
  move_recycle, valid_count, close_clients,
}

-- `closing` is the field isClose, by which Close keeps out a second Close.
pub record Pool : Type 0 where
  pub clients : Clients
  pub closing : Bool
  pub locked : Bool

-- Close
unfoldable pub close_pool : Env → Pool → Pool
close_pool env pl =
    if pl.closing
    then pl
    else record pl { clients = (close_clients env pl.clients).0; closing = true; locked = true }

-- What NewPool returns: a pool, or an error with the pool that it made and closed, if it made one.
pub data Made : Type 0 where
  made : Pool → Made
  refused : Error → Made
  abandoned : Pool → Error → Made

abbrev pub pool_of : Clients → Pool
pool_of s = record { clients = s; closing = false; locked = false }

-- NewPool, after init_clients.
unfoldable pub finish : Env → Outcome → Made
finish env (s, none) = made (pool_of s)
finish env (s, some e) = abandoned (close_pool env (pool_of s)) e

-- NewPool, in a process where `tag` tags have been given out.
unfoldable pub new_pool : Env → Options → Heap → ℕ → Made
new_pool env o h tag = elim (validate (repair o)) [
  | some e ↦ refused e
  | none ↦ finish env (init_clients env (new_clients (repair o) h tag))
]

abbrev pub with_clients : Pool → Clients → Pool
with_clients pl s = record pl { clients = s }

-- `c.AddRef(1)` and `c.reqTM = time.Now()`
abbrev pub use_client : Env → Clients → ℕ → Clients
use_client env s p =
    let c = add_ref (pos 1) (s.heap p) in
    record s { heap = update s.heap p (record c { req_tm = env.now }) }

unfoldable pub hand_out : Env → Clients × Got → Clients × Got
hand_out env (s, got p) = (use_client env s p, got p)
hand_out env (s, failed e) = (s, failed e)
hand_out env (s, fault) = (s, fault)

-- Get
unfoldable pub get_client : Env → Pool → Pool × Got
get_client env pl =
    if pl.locked
    then (pl, failed err_closed)
    else let (s, r) = hand_out env (get env pl.clients) in (with_clients pl s, r)

abbrev pub conn_of : Heap → Option ℕ → Option ℕ × Option Error
conn_of h none = (none, some err_not_found)
conn_of h (some p) = ((h p).conn, none)

-- GetConn
unfoldable pub get_conn : Env → Pool → Option ℕ × Option Error
get_conn env pl =
    if pl.locked
    then (none, some err_closed)
    else conn_of pl.clients.heap (get_one_valid_client env pl.clients)

abbrev pub edit : Clients → ℕ → Client → Clients
edit s p c = record s { heap = update s.heap p c }

-- put_bad: a client that is neither connected nor queued is closed at once.
unfoldable pub put_bad : Env → Clients → ℕ → Clients
put_bad env s p =
    let (s', found) = move_recycle env s p in
    if is_none found then edit s' p (close env (s'.heap p)).0 else s'

-- Put; a nil client is none. put_good does nothing.
unfoldable pub put : Env → Pool → Option ℕ → Bool → Pool × Option Error
put env pl none good = (pl, none)
put env pl (some p) good =
    if pl.locked
    then (with_clients pl (edit pl.clients p (close env (pl.clients.heap p)).0), some err_closed)
    else let s = edit pl.clients p (add_ref (negsuc 0) (pl.clients.heap p)) in
      (with_clients pl (if good then s else put_bad env s p), none)

-- ValidCount
unfoldable pub pool_valid_count : Pool → ℕ
pool_valid_count pl = if pl.locked then 0 else valid_count pl.clients
