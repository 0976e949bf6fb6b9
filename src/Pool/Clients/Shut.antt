-- ===== src/Pool/Clients/Shut.antt =====
-- `close` of `clients` in gokit/transport/pool/pool.go: what it closes, and where it stops.
use jkfr.Prelude.{
  ℕ, ◌≡◌, refl, ap, ◌∙◌, inl, inr, Bool, true, false, none, some, List, [], ◌∷◌, ◌++◌, arith, ◌==◌,
  if◌then◌else◌, elem, Bool-cases, Option-cases,
}
use jkfr.Pool.Options.{Error}
use jkfr.Pool.Client.{Client, Env, Heap, update, is_open, close, destroy, IsRange}
use jkfr.Pool.Recycle.{Recycle, close_all, close_recycle, close_at}
use jkfr.Pool.Recycle.Effect.{close-is_closed}
use jkfr.Pool.Clients.{Clients, destroy_slots, close_clients}

pub destroy-is_closed : (env : Env) (c : Client) → is_open (destroy env c).0 ≡ false
unfolding destroy close
destroy-is_closed env c = ground arith

-- A client that the loop does not visit is as it was.
destroy_slots-others :
    (env : Env) (h : Heap) (ps : List ℕ) (q : ℕ)
    → elem q ps ≡ false
    → (destroy_slots env h ps).0 q ≡ h q
unfolding destroy_slots elem
destroy_slots-others env h [] q e = refl
destroy_slots-others env h (p ∷ ps) q e = elim (Option-cases (destroy env (h p)).1) [
  | inr (x, d) ↦ rw (d, destroy_slots) (ground arith)
  | inl d ↦
      rw (d, destroy_slots)
        (destroy_slots-others env (update h p (destroy env (h p)).0) ps q (ground arith)
          ∙ ground arith)
]

-- A loop that meets no error leaves every client that it visits disconnected.
destroy_slots-closed :
    (env : Env) (h : Heap) (ps : List ℕ) (q : ℕ)
    → (destroy_slots env h ps).1 ≡ none
    → elem q ps ≡ true
    → is_open ((destroy_slots env h ps).0 q) ≡ false
unfolding destroy_slots elem
destroy_slots-closed env h [] q e m = cc
destroy_slots-closed env h (p ∷ ps) q e m = elim (Option-cases (destroy env (h p)).1) [
  | inr (x, d) ↦ absurd (stopped (rw (d, destroy_slots) at e))
  | inl d ↦
      let h' = update h p (destroy env (h p)).0 in
      rw (d, destroy_slots)
        (elim (Bool-cases (elem q ps)) [
          | inl i ↦ destroy_slots-closed env h' ps q (rw (d, destroy_slots) at e) i
          | inr i ↦
              ap (λ (c : Client). is_open c) (destroy_slots-others env h' ps q i)
              ∙ visited (ground arith)
        ])
]
  where
    stopped : {x : Error} → some x ≡ none → ⊥
    stopped r = cc

    visited : (p == q) ≡ true → is_open (update h p (destroy env (h p)).0 q) ≡ false
    visited t = rw t (destroy-is_closed env (h p))

-- Closing more clients connects none.
close_all-closed :
    (env : Env) (h : Heap) (ts : List ℕ) (q : ℕ)
    → is_open (h q) ≡ false
    → is_open (close_all env h ts q) ≡ false
unfolding close_all
close_all-closed env h [] q e = e
close_all-closed env h (t ∷ ts) q e = close_all-closed env (close_at env h t) ts q (either (t == q))
  where
    either : (b : Bool) → is_open (if b then (close env (h t)).0 else h q) ≡ false
    either true = close-is_closed env (h t)
    either false = e

close_all-others :
    (env : Env) (h : Heap) (ts : List ℕ) (q : ℕ) → elem q ts ≡ false → close_all env h ts q ≡ h q
unfolding close_all elem
close_all-others env h [] q e = refl
close_all-others env h (t ∷ ts) q e =
    close_all-others env (close_at env h t) ts q (ground arith) ∙ ground arith

close_all-visited :
    (env : Env) (h : Heap) (ts : List ℕ) (q : ℕ)
    → elem q ts ≡ true
    → is_open (close_all env h ts q) ≡ false
unfolding close_all elem
close_all-visited env h [] q e = cc
close_all-visited env h (t ∷ ts) q e = elim (Bool-cases (t == q)) [
  | inl same ↦ close_all-closed env (close_at env h t) ts q (rw same (close-is_closed env (h t)))
  | inr other ↦ close_all-visited env (close_at env h t) ts q (rw other at e)
]

-- A close that returns no error, of a pool with a recycle list, whatever order `range` takes over its
-- keys, disconnects the clients of all slots and of the recycle list, and empties the map.
pub close_clients-all :
    (env : Env) (s : Clients) (r : Recycle)
    → IsRange env.range
    → s.recycle ≡ some r
    → (close_clients env s).1 ≡ none
    → ((q : ℕ) → elem q s.cs ≡ true → is_open ((close_clients env s).0.heap q) ≡ false)
      × ((q : ℕ) → elem q r.keys ≡ true → is_open ((close_clients env s).0.heap q) ≡ false)
      × ((close_clients env s).0.pc2c ≡ [])
unfolding close_clients close_recycle
close_clients-all env s r range at done =
    rw (at, close_clients)
      (
        λ q m.
            close_all-closed env (destroy_slots env s.heap s.cs).0 (env.range r.keys) q
              (destroy_slots-closed env s.heap s.cs q done m),
        λ q m. close_all-visited env _ (env.range r.keys) q (range r.keys q ∙ m),
        refl,
      )

-- The loop stops at the first error, so the clients behind it stay as they are.
destroy_slots-stops :
    (env : Env) (h : Heap) (ps qs : List ℕ) (p : ℕ) (e : Error) (q : ℕ)
    → (destroy env ((destroy_slots env h ps).0 p)).1 ≡ some e
    → (destroy_slots env h ps).1 ≡ none
    → elem q (ps ++ p ∷ []) ≡ false
    → (destroy_slots env h (ps ++ p ∷ qs)).0 q ≡ h q
unfolding destroy_slots elem
destroy_slots-stops env h [] qs p e q d n m = rw (d, destroy_slots) (ground arith)
destroy_slots-stops env h (x ∷ ps) qs p e q d n m = elim (Option-cases (destroy env (h x)).1) [
  | inr (y, f) ↦ absurd (stopped (rw (f, destroy_slots) at n))
  | inl f ↦
      rw (f, destroy_slots)
        (destroy_slots-stops env (update h x (destroy env (h x)).0) ps qs p e q
            (rw (f, destroy_slots) at d) (rw (f, destroy_slots) at n) (ground arith)
          ∙ ground arith)
]
  where
    stopped : {y : Error} → some y ≡ none → ⊥
    stopped r = cc

-- If closing the client `p` of a slot is the first close of a slot to fail, then a client that is
-- neither in a slot up to there nor queued for recycling keeps its connection, and the map is empty.
pub close_clients-stops :
    (env : Env) (s : Clients) (r : Recycle) (ps qs : List ℕ) (p : ℕ) (e : Error) (q : ℕ)
    → IsRange env.range
    → s.recycle ≡ some r
    → s.cs ≡ ps ++ p ∷ qs
    → (destroy env ((destroy_slots env s.heap ps).0 p)).1 ≡ some e
    → (destroy_slots env s.heap ps).1 ≡ none
    → elem q (ps ++ p ∷ []) ≡ false
    → elem q r.keys ≡ false
    → ((close_clients env s).0.heap q ≡ s.heap q) × ((close_clients env s).0.pc2c ≡ [])
unfolding close_clients close_recycle
close_clients-stops env s r ps qs p e q range at slots failed before absent unqueued =
    rw (at, close_clients)
      (
        close_all-others env _ (env.range r.keys) q (range r.keys q ∙ unqueued)
            ∙ ap (λ (cs : List ℕ). (destroy_slots env s.heap cs).0 q) slots
            ∙ destroy_slots-stops env s.heap ps qs p e q failed before absent,
        refl,
      )
