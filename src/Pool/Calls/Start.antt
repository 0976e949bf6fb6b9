-- ===== src/Pool/Calls/Start.antt =====
-- NewPool of gokit/transport/pool/pool.go: a pool that is returned has its first connections.
use jkfr.Prelude.{
  ℕ, zero, suc, ◌≤◌, ◌≡◌, refl, ap, ◌∙◌, inl, inr, true, false, none, some, List, [], ◌∷◌, arith,
  length, get_elem?, take, elem, elem-get_elem?, length-subset, Option-cases,
}
use jkfr.Pool.Options.{Options, Error, second, repair, validate}
use jkfr.Pool.Options.Repair.{repair_bounds}
use jkfr.Pool.Client.{Client, Env, Heap, is_open}
use jkfr.Pool.Clients.{
  Clients, Outcome, make_slots, new_clients, init_slots, init_clients, init_end, flagged,
  valid_count,
}
use jkfr.Pool.Clients.Keep.{Factories, init_clients-IsOpen, init_clients-cs, InSlots-take}
use jkfr.Pool.Clients.New.{new_clients-IsOpen, make_slots-new}
use jkfr.Pool.Clients.Choice.{elem-take}
use jkfr.Pool.Clients.Init.{IsReady, init_slots-opens}
use jkfr.Pool.Calls.{Pool, made, refused, finish, new_pool, pool_valid_count}
use jkfr.Pool.Calls.Count.{slots-NoDup}

length-take : (n : ℕ) (ps : List ℕ) → n ≤ length ps → length (take n ps) ≡ n
length-take zero ps h = refl
length-take (suc n) [] h = absurd (omega arith)
length-take (suc n) (p ∷ ps) h = ap suc (length-take n ps (omega arith))

init_end-none :
    (r : Outcome) → (init_end r).1 ≡ none → (r.1 ≡ none) × ((init_end r).0.heap ≡ r.0.heap)
init_end-none (s, some e) h = cc
init_end-none (s, none) h = (refl, refl)

finish-made :
    (env : Env) (r : Outcome) (pl : Pool)
    → finish env r ≡ made pl
    → (r.1 ≡ none) × (pl.clients ≡ r.0) × (pl.locked ≡ false)
unfolding finish
finish-made env (s, some x) pl e = cc
finish-made env (s, none) pl e = (refl, ground arith, ground arith)

module _ (env : Env) (fs : Factories env) (o : Options) (h : Heap) (tag : ℕ)
    (late : second ≤ env.now) where
  abbrev fresh : Clients
  fresh = new_clients o h tag

  abbrev first : List ℕ
  first = take o.init_cap (make_slots o.max_cap 0 h tag).2

  fresh-IsReady : (q : ℕ) → elem q first ≡ true → IsReady env ((make_slots o.max_cap 0 h tag).0 q)
  fresh-IsReady q m =
      let (i, at) = elem-get_elem? q _ (elem-take o.init_cap q _ m) in
      inr
        (omega (arith, ap (λ (c : Client). c.conn_tm) (make_slots-new o.max_cap 0 h tag i q at).1))

  fresh-opens :
      (init_clients env fresh).1 ≡ none
      → (q : ℕ) → elem q first ≡ true
      → is_open ((init_clients env fresh).0.heap q) ≡ true
  unfolding init_clients new_clients
  fresh-opens e q m =
      let v = new_clients-IsOpen o h tag in
      let (done, same) = init_end-none (init_slots env (flagged fresh) first) e in
      let once =
        slots-NoDup fresh.heap fresh.cs first 0 (λ i p at. (v.sound.slots i p at).0)
          (InSlots-take o.init_cap fresh.cs) in
      let loop = init_slots-opens env (flagged fresh) first fs refl once.0 fresh-IsReady done in
      ap (λ (g : Heap). is_open (g q)) same ∙ loop.0 q m

  fresh-listed :
      (init_clients env fresh).1 ≡ none
      → o.init_cap ≤ o.max_cap
      → o.init_cap ≤ valid_count (init_clients env fresh).0
  unfolding new_clients valid_count
  fresh-listed e fits =
      let v = new_clients-IsOpen o h tag in
      let w = init_clients-IsOpen env fs fresh v in
      let once =
        slots-NoDup fresh.heap fresh.cs first 0 (λ i p at. (v.sound.slots i p at).0)
          (InSlots-take o.init_cap fresh.cs) in
      let size = length-take o.init_cap fresh.cs (omega (arith, v.sound.sized, fits)) in
      omega (
        arith,
        size,
        length-subset first (init_clients env fresh).0.pc2c once.0
            (λ q m.
              let (i, at) = elem-get_elem? q fresh.cs (elem-take o.init_cap q fresh.cs m) in
              w.sound.listed i q
                (ap (λ (cs : List ℕ). get_elem? cs i) (init_clients-cs env fs fresh) ∙ at)
                (fresh-opens e q m))
            w.sound.once,
      )

-- If NewPool returns a pool, the factories keep to their contract, and the clock reads a second or more
-- after Go's zero time, the pool has at least InitCap connections, where InitCap is that of the
-- repaired options.
pub new_pool_connected :
    (env : Env) (o : Options) (h : Heap) (tag : ℕ) (pl : Pool)
    → Factories env
    → second ≤ env.now
    → new_pool env o h tag ≡ made pl
    → (repair o).init_cap ≤ pool_valid_count pl
unfolding new_pool pool_valid_count
new_pool_connected env o h tag pl fs late e = elim (Option-cases (validate (repair o))) [
  | inr (x, q) ↦ absurd (refusal (rw (q, new_pool) at e))
  | inl q ↦
      let (done, same, up) = finish-made env _ pl (rw (q, new_pool) at e) in
      rw (up, same) (fresh-listed env fs (repair o) h tag late done (repair_bounds o).1)
]
  where
    refusal : {x : Error} → refused x ≡ made pl → ⊥
    refusal q = cc
