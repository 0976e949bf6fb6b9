-- ===== src/Pool/Recycle/Effect.antt =====
-- What `push` of the recycle list, and the loop that empties it, change outside the list
-- (gokit/transport/pool/pool.go).
use jkfr.Prelude.{
  ℕ, ◌≡◌, refl, ap, ◌∙◌, ◌⊎◌, inl, inr, Bool, true, false, ◌||◌, List, [], ◌∷◌, ◌++◌, arith, ltb,
  ◌==◌, if◌then◌else◌, is_none, is_some, elem, insert, elem-append, Bool-cases,
}
use jkfr.Pool.Client.{Client, Env, close, Heap}
use jkfr.Pool.Recycle.{Recycle, push, enqueue, evict, close_at}

pub close-index : (env : Env) (c : Client) → (close env c).0.index ≡ c.index
unfolding close
close-index env c = ground arith

pub close-is_closed : (env : Env) (c : Client) → is_some (close env c).0.conn ≡ false
unfolding close
close-is_closed env c = ground arith

module _ (env : Env) (h : Heap) where
  pub close_at-index : (p q : ℕ) → (close_at env h p q).index ≡ (h q).index
  close_at-index p q = elim (Bool-cases (p == q)) [
    | inl e ↦ rw e (close-index env (h p) ∙ ap (λ (t : ℕ). (h t).index) (eq p q e))
    | inr e ↦ rw e
  ]
    where
      eq : (a b : ℕ) → (a == b) ≡ true → a ≡ b
      eq a b e = ground arith

  evict-effect :
      (r : Recycle) (ts : List ℕ) (q : ℕ)
      → ((((evict env h r ts).0 q).index) ≡ (h q).index)
        × (elem q ts ≡ false → (evict env h r ts).0 q ≡ h q)
        × (r.clients ≡ ts → elem q (evict env h r ts).1.clients ≡ true → elem q ts ≡ true)
  unfolding evict elem
  evict-effect r [] q = (refl, λ e. refl, λ e m. ground (arith, ap (elem q) e))
  evict-effect r (t ∷ ts) q = (close_at-index t q, λ e. ground arith, λ e m. ground arith)

module _ (env : Env) (r : Recycle) (p q : ℕ) where
  enqueue-effect :
      (h : Heap)
      → (((enqueue env h r p).0 q).index ≡ (h q).index)
        × (elem q r.clients ≡ false → (p == q) ≡ false → (enqueue env h r p).0 q ≡ h q)
        × (elem q (enqueue env h r p).1.clients ≡ true → (elem q r.clients || (p == q)) ≡ true)
  unfolding enqueue elem
  enqueue-effect h =
      let queue = record r { clients = r.clients ++ p ∷ []; keys = insert p r.keys } in
      let out = evict-effect env h queue queue.clients q in
      let joined = elem-append q r.clients (p ∷ []) in
      elim (Bool-cases (ltb r.tokens r.capacity)) [
        | inl e ↦ rw e (refl, λ a b. refl, λ m. ground arith)
        | inr e ↦ rw e (out.0, λ a b. out.1 (ground arith), λ m. ground (arith, out.2 refl m))
      ]

  or_queued :
      (b : Bool) → (elem q r.clients || (p == q)) ≡ true → (elem q r.clients ≡ true) ⊎ (q ≡ p)
  or_queued b e = ground arith

  entered :
      (g : Heap)
      → let s = (if elem p r.keys then (g, r) else enqueue env g r p) in
        ((s.0 q).index ≡ (g q).index)
        × (elem q r.clients ≡ false → (p == q) ≡ false → s.0 q ≡ g q)
        × (elem q s.1.clients ≡ true → (elem q r.clients ≡ true) ⊎ (q ≡ p))
  entered g = elim (Bool-cases (elem p r.keys)) [
    | inl e ↦ rw e (refl, λ a b. refl, λ m. inl m)
    | inr e ↦ let out = enqueue-effect g in rw e (out.0, out.1, λ m. or_queued true (out.2 m))
  ]

  closing-effect :
      (h : Heap) (b : Bool)
      → (((if b then close_at env h p else h) q).index ≡ (h q).index)
        × ((p == q) ≡ false → (if b then close_at env h p else h) q ≡ h q)
  closing-effect h true = (close_at-index env h p q, λ e. rw e)
  closing-effect h false = (refl, λ e. refl)

  -- `push` leaves every index alone, touches no client outside the list but the pushed one, and adds
  -- no other to the list.
  pub push-effect :
      (h : Heap)
      → (((push env (h, r) p).0 q).index ≡ (h q).index)
        × (elem q r.clients ≡ false → (p == q) ≡ false → (push env (h, r) p).0 q ≡ h q)
        × (elem q (push env (h, r) p).1.clients ≡ true → (elem q r.clients ≡ true) ⊎ (q ≡ p))
  unfolding push
  push-effect h = elim (Bool-cases (is_none (h p).handle)) [
    | inl e ↦ rw (e, push) (refl, λ a b. refl, λ m. inl m)
    | inr e ↦
        let out = entered (if r.is_close then close_at env h p else h) in
        let closing = closing-effect h r.is_close in
        rw (e, push) (out.0 ∙ closing.0, λ a b. out.1 a b ∙ closing.1 b, out.2)
  ]
