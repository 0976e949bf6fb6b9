-- ===== src/Pool/Calls/Overlap/Queue.antt =====
-- The recycle list stays bounded while calls of a pool overlap (gokit/transport/pool/pool.go).
use jkfr.Prelude.{
  ℕ, ◌+◌, ◌*◌, min, ◌≤◌, ◌≡◌, refl, subst, inl, inr, Bool, true, false, Option, none, some, List,
  [], ◌∷◌, ◌++◌, arith, ltb, leb, ◌==◌, if◌then◌else◌, length, elem, insert, length-append,
  length-remove-le, Bool-cases, Option-cases, take,
}
use mathlib.Core.Option.{some-injective}
use jkfr.Pool.Options.{Options}
use jkfr.Pool.Client.{Env, Heap}
use jkfr.Pool.Recycle.{
  Recycle, push, enqueue, close_at, remove_client, get_one_client, first_releasable, front?,
  new_recycle,
}
use jkfr.Pool.Recycle.Invariant.{length-evict}
use jkfr.Pool.Clients.{
  Clients, push_client, retire, retire_to, move_recycle, remove_if_idle, is_kept, choose, round_get,
  first_idle, new_clients,
}
use jkfr.Pool.Calls.Overlap.{
  Overlap, Section, chooses, dials, enters, uses, counts, moves, shuts, clears, flags, receives,
  passes, takes, rests, Mixed, here, next, begun, dial_at, received,
}

abbrev one_if : Bool → ℕ
one_if b = if b then 1 else 0

-- At most MaxCap clients, one more for each value in the channel, and one for the value with which the
-- goroutine has begun a round.
record IsQueued (max_cap : ℕ) (round : Bool) (r : Recycle) : Type 0 where
  listed : length r.clients ≤ max_cap + r.tokens + one_if round
  buffered : r.tokens ≤ r.capacity
  capped : r.capacity ≡ min (max_cap * 10) 2000

-- The same of the list of a pool, if it has one.
record IsBounded (s : Clients) (round : Bool) : Type 0 where
  queued : (r : Recycle) → s.recycle ≡ some r → IsQueued s.o.max_cap round r

push-IsQueued :
    (m : ℕ) (b : Bool) (env : Env) (h : Heap) (r : Recycle) (p : ℕ)
    → IsQueued m b r
    → IsQueued m b (push env (h, r) p).1
unfolding push enqueue
push-IsQueued m b env h r p v =
    let queue = record r { clients = r.clients ++ p ∷ []; keys = insert p r.keys } in
    let added = length-append r.clients (p ∷ []) in
    let here = length-evict env h queue queue.clients refl in
    let there = length-evict env (close_at env h p) queue queue.clients refl in
    record {
      listed = ground (arith, v.listed, added, here, there);
      buffered = ground (arith, v.buffered, here, there);
      capped = ground (arith, v.capped, here, there);
    }

get_one_client-none :
    (o : Options) (env : Env) (h : Heap) (r : Recycle)
    → get_one_client o env h r ≡ none
    → length r.clients ≤ o.max_cap
unfolding get_one_client
get_one_client-none o env h r e =
    by r.clients (first_releasable o env h (env.range r.keys)) (ltb o.max_cap (length r.clients))
      refl e
  where
    by :
        (ts : List ℕ) (first : Option ℕ) (full : Bool)
        → ltb o.max_cap (length ts) ≡ full
        → (if length ts == 0 then none else elim first as (λ x. Option ℕ) [
          | some t ↦ some t
          | none ↦ if full then front? ts else none
        ])
          ≡ none
        → length ts ≤ o.max_cap
    by [] first full t f = omega arith
    by (x ∷ ts) (some y) full t f = ground arith
    by (x ∷ ts) none true t f = ground arith
    by (x ∷ ts) none false t f = ground arith

remove_client-IsQueued :
    (m : ℕ) (b : Bool) (h : Heap) (r : Recycle) (p : ℕ)
    → IsQueued m b r
    → IsQueued m b (remove_client h r p)
unfolding remove_client
remove_client-IsQueued m b h r p v = record {
  listed = ground (arith, v.listed, length-remove-le p r.clients);
  buffered = ground (arith, v.buffered);
  capped = ground (arith, v.capped);
}

-- A change of the list alone.
listed-IsBounded :
    (s : Clients) (b : Bool) (r : Recycle)
    → IsQueued s.o.max_cap b r
    → IsBounded (record s { recycle = some r }) b
listed-IsBounded s b r w = record {
  queued = λ r' at. subst (IsQueued s.o.max_cap b) (some-injective _ _ at) w;
}

retire_to-IsBounded :
    (env : Env) (s : Clients) (b : Bool) (r : Recycle) (p : ℕ)
    → IsQueued s.o.max_cap b r
    → IsBounded (retire_to env s r p) b
unfolding retire_to retire
retire_to-IsBounded env s b r p w = record {
  queued = λ r' at.
      subst (IsQueued s.o.max_cap b) (some-injective _ _ at)
        (push-IsQueued s.o.max_cap b env (retire s p).heap r p w);
}

move_recycle-IsBounded :
    (env : Env) (s : Clients) (b : Bool) (p : ℕ)
    → IsBounded s b
    → IsBounded (move_recycle env s p).0 b
unfolding move_recycle
move_recycle-IsBounded env s b p v = elim (Option-cases s.recycle) [
  | inl e ↦ elim (Bool-cases (elem p s.pc2c)) [
    | inl m ↦ rw (m, e, move_recycle) (record { queued = λ r at. v.queued r at })
    | inr m ↦ rw (m, e, move_recycle) v
  ]
  | inr (r, e) ↦ elim (Bool-cases (elem p s.pc2c)) [
    | inl m ↦ rw (m, e, move_recycle) (retire_to-IsBounded env s b r p (v.queued r e))
    | inr m ↦ rw (m, e, move_recycle) v
  ]
]

remove_if_idle-IsBounded :
    (env : Env) (s : Clients) (b : Bool) (p : ℕ)
    → IsBounded s b
    → IsBounded (remove_if_idle env s p) b
unfolding remove_if_idle
remove_if_idle-IsBounded env s b p v = elim (Bool-cases (is_kept s.o env (s.heap p))) [
  | inl k ↦ rw (k, remove_if_idle) v
  | inr k ↦ elim (Option-cases s.recycle) [
    | inl e ↦ rw (k, e, remove_if_idle) (record { queued = λ r at. v.queued r at })
    | inr (r, e) ↦ rw (k, e, remove_if_idle) (retire_to-IsBounded env s b r p (v.queued r e))
  ]
]

push_client-IsBounded :
    (env : Env) (s : Clients) (b : Bool) (p : ℕ) → IsBounded s b → IsBounded (push_client env s p) b
unfolding push_client
push_client-IsBounded env s b p v = elim (Bool-cases s.is_close) [
  | inl e ↦ rw (e, push_client) (record { queued = λ r at. v.queued r at })
  | inr e ↦ rw (e, push_client) (record { queued = λ r at. v.queued r at })
]

choose-IsBounded : (s : Clients) (b : Bool) → IsBounded s b → IsBounded (choose s).0 b
unfolding round_get
choose-IsBounded s b v = elim (Bool-cases (leb s.o.max_cap 100)) [
  | inl e ↦ rw e v
  | inr e ↦ elim (Option-cases (first_idle s.heap (take s.o.init_cap s.cs))) [
    | inl f ↦ rw (e, f, round_get) (record { queued = λ r at. v.queued r at })
    | inr (p, f) ↦ rw (e, f, round_get) v
  ]
]

-- A round ends, or has had nothing to do, where the list is short enough.
short-IsQueued :
    (m : ℕ) (b : Bool) (r : Recycle) → length r.clients ≤ m → IsQueued m b r → IsQueued m false r
short-IsQueued m b r short v = record {
  listed = omega (arith, short);
  buffered = v.buffered;
  capped = v.capped;
}

received-IsQueued :
    (m : ℕ) (r : Recycle) → 1 ≤ r.tokens → IsQueued m false r → IsQueued m true (received r)
received-IsQueued m r some_token v = record {
  listed = omega (arith, v.listed, some_token);
  buffered = omega (arith, v.buffered);
  capped = v.capped;
}

Section-IsBounded :
    {x y : Overlap} → Section x y → IsBounded x.clients x.in_round → IsBounded y.clients y.in_round
unfolding dial_at
Section-IsBounded (chooses x) v = choose-IsBounded x.clients x.in_round v
Section-IsBounded (dials env x p fs) v = record { queued = λ r at. v.queued r at }
Section-IsBounded (enters env x p ps qs e) v = push_client-IsBounded env x.clients x.in_round p v
Section-IsBounded (uses env x p) v = record { queued = λ r at. v.queued r at }
Section-IsBounded (counts d x p) v = record { queued = λ r at. v.queued r at }
Section-IsBounded (moves env x p) v = move_recycle-IsBounded env x.clients x.in_round p v
Section-IsBounded (shuts env x p) v = record { queued = λ r at. v.queued r at }
Section-IsBounded (clears env x p) v = remove_if_idle-IsBounded env x.clients x.in_round p v
Section-IsBounded (flags b x) v = record { queued = λ r at. v.queued r at }
Section-IsBounded (receives x r at out some_token) v =
    listed-IsBounded x.clients true (received r) (
      received-IsQueued x.clients.o.max_cap r some_token
        (subst (λ b. IsQueued x.clients.o.max_cap b r) out (v.queued r at)))
Section-IsBounded (passes x r at short) v =
    listed-IsBounded x.clients false r
      (short-IsQueued x.clients.o.max_cap x.in_round r short (v.queued r at))
Section-IsBounded (takes x r p at) v =
    listed-IsBounded x.clients x.in_round _
      (remove_client-IsQueued x.clients.o.max_cap x.in_round x.clients.heap r p (v.queued r at))
Section-IsBounded (rests env x r at none_left) v = listed-IsBounded x.clients false r (
    short-IsQueued x.clients.o.max_cap x.in_round r
      (get_one_client-none x.clients.o env x.clients.heap r none_left) (v.queued r at))

Mixed-IsBounded :
    {x y : Overlap} → Mixed x y → IsBounded x.clients x.in_round → IsBounded y.clients y.in_round
Mixed-IsBounded here v = v
Mixed-IsBounded (next m st) v = Section-IsBounded st (Mixed-IsBounded m v)

begun-IsBounded : (o : Options) (h : Heap) (tag : ℕ) → IsBounded (new_clients o h tag) false
unfolding new_clients new_recycle
begun-IsBounded o h tag =
    let empty : IsQueued o.max_cap false (new_recycle o) = record {
      listed = omega arith;
      buffered = omega arith;
      capped = refl;
    } in
    record { queued = λ r at. subst (IsQueued o.max_cap false) (some-injective _ _ at) empty }

-- However the calls of a pool and its goroutines mix, from the start of NewPool until Close, with
-- factories that keep to their contract, the recycle list holds at most MaxCap clients, another
-- min(10 MaxCap, 2000), which is the capacity of its channel, and one more while the goroutine of the
-- list is in a round for which it received a value.
pub recycle_bounded :
    (o : Options) (h : Heap) (tag : ℕ) (x : Overlap) (r : Recycle)
    → Mixed (begun o h tag) x
    → x.clients.recycle ≡ some r
    → length r.clients
      ≤ x.clients.o.max_cap + min (x.clients.o.max_cap * 10) 2000 + (if x.in_round then 1 else 0)
recycle_bounded o h tag x r m at =
    let v = (Mixed-IsBounded m (begun-IsBounded o h tag)).queued r at in
    omega (arith, v.listed, v.buffered, v.capped)
