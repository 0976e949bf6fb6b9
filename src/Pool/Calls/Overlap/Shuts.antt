-- ===== src/Pool/Calls/Overlap/Shuts.antt =====
-- Which operations of gokit/transport/pool/pool.go connect no client.
use jkfr.Prelude.{
  ℕ, ◌+◌, ◌≡◌, refl, ap, subst, ◌∙◌, Bool, true, false, List, [], ◌∷◌, ◌++◌, arith, ltb, ◌==◌,
  if◌then◌else◌, is_none, elem, insert,
}
use jkfr.Pool.Client.{Client, Env, Heap, update, is_open}
use jkfr.Pool.Recycle.{Recycle, close_at, push, enqueue, evict}
use jkfr.Pool.Recycle.Effect.{close-index, close-is_closed}

-- A change that connects no client, and leaves their slots' numbers.
pub record Shuts (h h' : Heap) : Type 0 where
  pub same : (q : ℕ) → (h' q).index ≡ (h q).index
  pub closer : (q : ℕ) → is_open (h' q) ≡ true → is_open (h q) ≡ true

pub refl-Shuts : (h : Heap) → Shuts h h
refl-Shuts h = record { same = λ q. refl; closer = λ q e. e }

pub trans-Shuts : {h g k : Heap} → Shuts h g → Shuts g k → Shuts h k
trans-Shuts a b = record {
  same = λ q. b.same q ∙ a.same q;
  closer = λ q e. a.closer q (b.closer q e);
}

pub update-Shuts :
    (h : Heap) (p : ℕ) (c : Client)
    → c.index ≡ (h p).index
    → (is_open c ≡ true → is_open (h p) ≡ true)
    → Shuts h (update h p c)
update-Shuts h p c same closer = record {
  same = λ q. at_index q (p == q) refl;
  closer = λ q. at_open q (p == q) refl;
}
  where
    at_index : (q : ℕ) (b : Bool) → (p == q) ≡ b → (if b then c else h q).index ≡ (h q).index
    at_index q true e = let p≡q : p ≡ q = ground arith in same ∙ ap (λ (u : ℕ). (h u).index) p≡q
    at_index q false e = refl

    at_open :
        (q : ℕ) (b : Bool)
        → (p == q) ≡ b
        → is_open (if b then c else h q) ≡ true
        → is_open (h q) ≡ true
    at_open q true e up =
        let p≡q : p ≡ q = ground arith in subst (λ u. is_open (h u) ≡ true) p≡q (closer up)
    at_open q false e up = up

pub close_at-Shuts : (env : Env) (h : Heap) (p : ℕ) → Shuts h (close_at env h p)
close_at-Shuts env h p =
    update-Shuts h p _ (close-index env (h p)) λ up. ground (arith, close-is_closed env (h p))

evict-Shuts : (env : Env) (h : Heap) (r : Recycle) (ts : List ℕ) → Shuts h (evict env h r ts).0
unfolding evict
evict-Shuts env h r [] = refl-Shuts h
evict-Shuts env h r (t ∷ ts) = close_at-Shuts env h t

pub push-Shuts : (env : Env) (h : Heap) (r : Recycle) (p : ℕ) → Shuts h (push env (h, r) p).0
unfolding push enqueue
push-Shuts env h r p =
    by (is_none (h p).handle) r.is_close (elem p r.keys) (ltb r.tokens r.capacity)
  where
    queued : Recycle
    queued = record r { clients = r.clients ++ p ∷ []; keys = insert p r.keys }

    enqueued :
        (g : Heap) (full : Bool)
        → Shuts g
            (if◌then◌else◌ {A = Heap × Recycle} full
              (g, record queued { tokens = r.tokens + 1 })
              (evict env g queued queued.clients)).0
    enqueued g true = refl-Shuts g
    enqueued g false = evict-Shuts env g queued queued.clients

    entered :
        (g : Heap) (there full : Bool)
        → Shuts g
            (if◌then◌else◌ {A = Heap × Recycle} there
              (g, r)
              (if full
                then (g, record queued { tokens = r.tokens + 1 })
                else evict env g queued queued.clients)).0
    entered g true full = refl-Shuts g
    entered g false full = enqueued g full

    by :
        (none shut there full : Bool)
        → Shuts h
            (if◌then◌else◌ {A = Heap × Recycle} none
              (h, r)
              (let h' = if shut then close_at env h p else h in
                if there
                then (h', r)
                else if full
                then (h', record queued { tokens = r.tokens + 1 })
                else evict env h' queued queued.clients)).0
    by true shut there full = refl-Shuts h
    by false true there full =
        trans-Shuts (close_at-Shuts env h p) (entered (close_at env h p) there full)
    by false false there full = entered h there full
