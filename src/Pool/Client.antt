-- ===== src/Pool/Client.antt =====
-- `client` of gokit/transport/pool/pool.go: one connection slot of a pool.
pub mod Dial
use jkfr.Prelude.{
  ℕ, ◌-◌, ◌≡◌, Bool, true, false, Option, none, some, ltb, ◌==◌, if◌then◌else◌, is_some, ℤ, pos,
  ◌+ℤ◌, List, elem,
}
use mathlib.Core.Option
use jkfr.Pool.Options.{Options, Error, err_closed, second}

-- `handle` and `conn` stand for the two interface values that the factory makes; none is nil.
-- Times are nanoseconds after Go's zero time. `new_client` is the only maker of clients and draws
-- their tags from a counter, so a pointer to a client is modelled by its tag, which is no field here.
pub record Client : Type 0 where
  pub handle : Option ℕ
  pub conn : Option ℕ
  pub conn_tm : ℕ
  pub req_tm : ℕ
  pub ref : ℤ
  pub index : ℕ
  pub destroyed : Bool
  pub err : Option Error

-- What one call of the factory returns.
pub record Dialed : Type 0 where
  pub handle : Option ℕ
  pub conn : Option ℕ
  pub err : Option Error

-- What an operation reads of its surroundings: the time, the time after a dial, the factory's answer
-- to a dial for the client of a given tag, the error that closing a given handle returns, and the
-- order in which `range` visits the keys of a map.
pub record Env : Type 0 where
  pub now : ℕ
  pub later : ℕ
  pub dial : ℕ → Dialed
  pub closing : ℕ → Option Error
  pub range : List ℕ → List ℕ

-- new_client, without the tag.
abbrev pub new_client : ℕ → Client
new_client index = record {
  handle = none;
  conn = none;
  conn_tm = 0;
  req_tm = 0;
  ref = pos 0;
  index = index;
  destroyed = false;
  err = none;
}

-- IsClose, negated.
abbrev pub is_open : Client → Bool
is_open c = is_some c.conn

-- IsIdleTimeOut
abbrev pub is_idle_time_out : Options → Env → Client → Bool
is_idle_time_out o env c = ltb o.idle_timeout (env.now - c.req_tm)

-- What Connect returns, beside the client: whether the connection is new, and the error.
abbrev pub Connected : Type 0
Connected = Client × Bool × Option Error

-- Connect before it takes the lock: the answer, if that is already decided.
unfoldable pub connect_check : Client → Option (Bool × Option Error)
connect_check c =
    if c.destroyed
    then some (false, some err_closed)
    else if is_some c.conn
    then some (false, none)
    else none

-- The client after the factory's answer: its three fields are assigned at once, then `err` is tested.
unfoldable pub dialed : Env → Client → Dialed → Connected
dialed env c d =
    let c' = record c { conn_tm = env.now; handle = d.handle; conn = d.conn; err = d.err } in
    if is_some d.err then (c', false, d.err) else (record c' { req_tm = env.later }, true, none)

-- Connect under the lock.
unfoldable pub connect_locked : Env → ℕ → Client → Connected
connect_locked env tag c =
    if is_some c.conn
    then (c, false, none)
    else if c.destroyed
    then (c, false, some err_closed)
    else if ltb (env.now - c.conn_tm) second
    then (c, false, c.err)
    else dialed env c (env.dial tag)

-- Connect, when no other call gets between the check and the lock.
unfoldable pub connect : Env → ℕ → Client → Connected
connect env tag c = elim (connect_check c) [
  | some (b, e) ↦ (c, b, e)
  | none ↦ connect_locked env tag c
]

unfoldable pub add_ref : ℤ → Client → Client
add_ref delta c = record c { ref = c.ref +ℤ delta }

-- Close. The error is that of the handle, which is non-nil whenever the connection is.
unfoldable pub close : Env → Client → Client × Option Error
close env c =
    if is_some c.conn
    then (record c { conn = none }, Option.bind c.handle env.closing)
    else (c, none)

-- Destroy
unfoldable pub destroy : Env → Client → Client × Option Error
destroy env c = close env (record c { destroyed = true })

-- What the factories of this repository keep to: an error and a connection exclude each other.
abbrev pub IsFactory : Dialed → Type 0
IsFactory d = is_some d.err ≡ (if is_some d.conn then false else true)

-- `range` visits the keys of the map and nothing else.
abbrev pub IsRange : (List ℕ → List ℕ) → Type 0
IsRange range = (keys : List ℕ) (t : ℕ) → elem t (range keys) ≡ elem t keys

-- The clients of a pool, by their tags.
abbrev pub Heap : Type 0
Heap = ℕ → Client

abbrev pub update : Heap → ℕ → Client → Heap
update h p c q = if p == q then c else h q
