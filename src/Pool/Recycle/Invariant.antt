-- ===== src/Pool/Recycle/Invariant.antt =====
-- The recycle list of gokit/transport/pool/pool.go: its list and its map agree, it stays bounded, and
-- its inner loop ends.
use jkfr.Prelude.{
  ℕ, ◌+◌, ◌-◌, ◌*◌, min, ◌≤◌, ◌≡◌, refl, ap, subst, ◌∙◌, inl, inr, Bool, true, false, List, [], ◌∷◌,
  ◌++◌, arith, ltb, if◌then◌else◌, is_some, is_none, length, length-append, elem, insert,
  elem-remove, elem-insert, elem-append, NoDup, remove-NoDup, insert-NoDup, append-NoDup,
  Bool-cases,
}
use jkfr.Pool.Options.{Options}
use jkfr.Pool.Client.{Client, Env, close, Heap}
use jkfr.Pool.Recycle.{Recycle, push, enqueue, evict, remove_client, close_at}

-- The list and the map hold the same clients, each once, and each was connected once.
pub record IsWhole (h : Heap) (r : Recycle) : Type 0 where
  pub same : (t : ℕ) → elem t r.keys ≡ elem t r.clients
  pub clients_once : NoDup r.clients
  pub keys_once : NoDup r.keys
  pub handled : (t : ℕ) → elem t r.clients ≡ true → is_some (h t).handle ≡ true

-- At most `max_cap` clients, and one more for each value that waits in the channel.
pub record IsBounded (o : Options) (r : Recycle) : Type 0 where
  pub listed : length r.clients ≤ o.max_cap + r.tokens
  pub buffered : r.tokens ≤ r.capacity
  pub capped : r.capacity ≡ min (o.max_cap * 10) 2000

pub close-handle : (env : Env) (c : Client) → (close env c).0.handle ≡ c.handle
unfolding close
close-handle env c = ground arith

close_at-handle :
    (env : Env) (h : Heap) (p t : ℕ) → is_some (close_at env h p t).handle ≡ is_some (h t).handle
close_at-handle env h p t = ground (arith, close-handle env (h p), close-handle env (h t))

pub remove_client-IsWhole :
    (h : Heap) (r : Recycle) (p : ℕ) → IsWhole h r → IsWhole h (remove_client h r p)
unfolding remove_client
remove_client-IsWhole h r p w = elim (Bool-cases (is_none (h p).handle)) [
  | inl e ↦ rw (e, remove_client) w
  | inr e ↦ elim (Bool-cases (elem p r.keys)) [
    | inl i ↦
        rw (e, i, remove_client)
          (record {
            same = λ t. ground (arith, elem-remove p t r.keys, elem-remove p t r.clients, w.same t);
            clients_once = remove-NoDup p r.clients w.clients_once;
            keys_once = remove-NoDup p r.keys w.keys_once;
            handled = λ t. ground (arith, elem-remove p t r.clients, w.handled t);
          })
    | inr i ↦ rw (e, i, remove_client) w
  ]
]

pub close_at-IsWhole :
    (env : Env) (h : Heap) (r : Recycle) (p : ℕ) → IsWhole h r → IsWhole (close_at env h p) r
close_at-IsWhole env h r p w = record {
  same = w.same;
  clients_once = w.clients_once;
  keys_once = w.keys_once;
  handled = λ t m. close_at-handle env h p t ∙ w.handled t m;
}

enqueued-IsWhole :
    (h : Heap) (r : Recycle) (p n : ℕ)
    → IsWhole h r
    → elem p r.keys ≡ false
    → is_some (h p).handle ≡ true
    → IsWhole h (record r { clients = r.clients ++ p ∷ []; keys = insert p r.keys; tokens = n })
unfolding elem
enqueued-IsWhole h r p n w e i = record {
  same = λ t. ground (arith, elem-insert p t r.keys, elem-append t r.clients (p ∷ []), w.same t);
  clients_once = append-NoDup r.clients p w.clients_once (ground (arith, w.same p));
  keys_once = insert-NoDup p r.keys w.keys_once;
  handled = λ t m. ground (arith, elem-append t r.clients (p ∷ []), w.handled t);
}

evict-IsWhole :
    (env : Env) (h : Heap) (r : Recycle) (ts : List ℕ)
    → r.clients ≡ ts
    → IsWhole h r
    → IsWhole (evict env h r ts).0 (evict env h r ts).1
unfolding evict elem
evict-IsWhole env h r [] e w = w
evict-IsWhole env h r (f ∷ ts) e w =
    let once = subst NoDup e w.clients_once in
    close_at-IsWhole env h _ f (record {
      same = λ t. ground (arith, elem-remove f t r.keys, w.same t, ap (elem t) e);
      clients_once = once.1;
      keys_once = remove-NoDup f r.keys w.keys_once;
      handled = λ t m. ground (arith, w.handled t, ap (elem t) e);
    })

-- A push to a whole recycle list, of any client, leaves it whole, whether or not the oldest client has
-- to go: the list and the map hold the same clients, each once, and each was connected once.
pub push-IsWhole :
    (env : Env) (h : Heap) (r : Recycle) (p : ℕ)
    → IsWhole h r
    → IsWhole (push env (h, r) p).0 (push env (h, r) p).1
unfolding push enqueue
push-IsWhole env h r p w = elim (Bool-cases (is_none (h p).handle)) [
  | inl e ↦ rw (e, push) w
  | inr e ↦
      let h' = if r.is_close then close_at env h p else h in
      let w' : IsWhole h' r = closing r.is_close in
      rw (e, push) (enter h' w' (ground (arith, close_at-handle env h p p)))
]
  where
    closing : (b : Bool) → IsWhole (if b then close_at env h p else h) r
    closing true = close_at-IsWhole env h r p w
    closing false = w

    enter :
        (g : Heap)
        → IsWhole g r
        → is_some (g p).handle ≡ true
        → IsWhole
            (if elem p r.keys then (g, r) else enqueue env g r p).0
            (if elem p r.keys then (g, r) else enqueue env g r p).1
    enter g v i = elim (Bool-cases (elem p r.keys)) [
      | inl m ↦ rw m v
      | inr m ↦ elim (Bool-cases (ltb r.tokens r.capacity)) [
        | inl room ↦ rw (m, room) (enqueued-IsWhole g r p (r.tokens + 1) v m i)
        | inr full ↦
            rw (m, full) (evict-IsWhole env g _ _ refl (enqueued-IsWhole g r p r.tokens v m i))
      ]
    ]

pub length-evict :
    (env : Env) (h : Heap) (r : Recycle) (ts : List ℕ)
    → r.clients ≡ ts
    → (length (evict env h r ts).1.clients ≡ length ts - 1)
      × ((evict env h r ts).1.tokens ≡ r.tokens)
      × ((evict env h r ts).1.capacity ≡ r.capacity)
unfolding evict
length-evict env h r [] e = (ground (arith, ap length e), refl, refl)
length-evict env h r (f ∷ ts) e = (omega arith, refl, refl)

-- A push keeps the bound: it adds a client with a value in the channel, or drops the oldest client.
pub push-IsBounded :
    (o : Options) (env : Env) (h : Heap) (r : Recycle) (p : ℕ)
    → IsBounded o r
    → IsBounded o (push env (h, r) p).1
unfolding push enqueue
push-IsBounded o env h r p b =
    let queue = record r { clients = r.clients ++ p ∷ []; keys = insert p r.keys } in
    ground (
      arith,
      length-append r.clients (p ∷ []),
      length-evict env h queue queue.clients refl,
      length-evict env (close_at env h p) queue queue.clients refl,
    )
