-- ===== src/Pool/Calls/Overlap/Covered.antt =====
-- The map of a pool keeps up with its connected clients while calls overlap
-- (gokit/transport/pool/pool.go).
use jkfr.Prelude.{
  ℕ, zero, suc, ◌≤◌, ◌≡◌, refl, sym, ap, subst, ◌∙◌, ◌⊎◌, inl, inr, Bool, true, false, ◌||◌, Option,
  none, some, List, [], ◌∷◌, arith, ◌==◌, if◌then◌else◌, get_elem?, set, elem, remove, elem-remove,
  Bool-cases,
}
use jkfr.Pool.Client.{Client, Env, Heap, update, new_client, is_open, close}
use jkfr.Pool.Recycle.{Recycle, close_at, push, enqueue, evict}
use jkfr.Pool.Recycle.Effect.{close-index, close-is_closed}
use jkfr.Pool.Clients.{Clients, retire, retire_to, move_recycle, remove_if_idle, is_kept}
use jkfr.Pool.Calls.{edit}
use jkfr.Pool.Calls.Overlap.Shuts.{Shuts, update-Shuts, push-Shuts}

-- Each slot's client knows its slot, and each connected one is in the map, or is still to be pushed.
pub record IsCovered (s : Clients) (unpushed : List ℕ) : Type 0 where
  pub slots : (i p : ℕ) → get_elem? s.cs i ≡ some p → ((s.heap p).index ≡ i) × (p ≤ s.tag)
  pub covered :
      (i p : ℕ)
      → get_elem? s.cs i ≡ some p
      → is_open (s.heap p) ≡ true
      → (elem p s.pc2c || elem p unpushed) ≡ true

pub shut-IsCovered :
    (s : Clients) (ps : List ℕ) (h : Heap)
    → Shuts s.heap h
    → IsCovered s ps
    → IsCovered (record s { heap = h }) ps
shut-IsCovered s ps h sh v = record {
  slots = λ i p e. (sh.same p ∙ (v.slots i p e).0, (v.slots i p e).1);
  covered = λ i p e up. v.covered i p e (sh.closer p up);
}

pub edit-IsCovered :
    (s : Clients) (ps : List ℕ) (p : ℕ) (c : Client)
    → c.index ≡ (s.heap p).index
    → (is_open c ≡ true → is_open (s.heap p) ≡ true)
    → IsCovered s ps
    → IsCovered (edit s p c) ps
edit-IsCovered s ps p c same closer v =
    shut-IsCovered s ps (update s.heap p c) (update-Shuts s.heap p c same closer) v

-- What stands in a list after a change at one place.
set-get :
    (xs : List ℕ) (i j v q : ℕ)
    → get_elem? (set xs i v) j ≡ some q
    → (((i == j) ≡ true) × (q ≡ v)) ⊎ (((i == j) ≡ false) × (get_elem? xs j ≡ some q))
unfolding set
set-get [] i j v q e = cc
set-get (x ∷ xs) zero zero v q e = inl (ground arith, cc)
set-get (x ∷ xs) zero (suc j) v q e = inr (ground arith, e)
set-get (x ∷ xs) (suc i) zero v q e = inr (ground arith, e)
set-get (x ∷ xs) (suc i) (suc j) v q e = elim (set-get xs i j v q e) [
  | inl (a, b) ↦ inl (ground (arith, a), b)
  | inr (a, b) ↦ inr (ground (arith, a), b)
]

true-false : true ≡ false → ⊥
true-false e = cc

retire-IsCovered : (s : Clients) (ps : List ℕ) (p : ℕ) → IsCovered s ps → IsCovered (retire s p) ps
unfolding retire
retire-IsCovered s ps p v = record { slots = slots; covered = covered }
  where
    k : ℕ
    k = (s.heap p).index

    h : Heap
    h = update s.heap (suc s.tag) (new_client k)

    old : (q : ℕ) → q ≤ s.tag → h q ≡ s.heap q
    old q le = let other : (suc s.tag == q) ≡ false = ground (arith, le) in rw other refl

    new : (q : ℕ) → q ≡ suc s.tag → h q ≡ new_client k
    new q same = let t : (suc s.tag == q) ≡ true = ground (arith, same) in rw t refl

    other : (i q : ℕ) → (k == i) ≡ false → (s.heap q).index ≡ i → (p == q) ≡ false
    other i q at known = elim (Bool-cases (p == q)) [
      | inl t ↦
          let p≡q : p ≡ q = ground arith in
          let k≡i : k ≡ i = ap (λ (u : ℕ). (s.heap u).index) p≡q ∙ known in
          absurd (ground (arith, at, k≡i))
      | inr t ↦ t
    ]

    slots :
        (i q : ℕ)
        → get_elem? (set s.cs k (suc s.tag)) i ≡ some q
        → ((h q).index ≡ i) × (q ≤ suc s.tag)
    slots i q e = elim (set-get s.cs k i (suc s.tag) q e) [
      | inl (at, same) ↦
          let k≡i : k ≡ i = ground (arith, at) in
          (ap (λ (c : Client). c.index) (new q same) ∙ k≡i, omega (arith, same))
      | inr (at, there) ↦
          let b = v.slots i q there in
          (ap (λ (c : Client). c.index) (old q b.1) ∙ b.0, omega (arith, b.1))
    ]

    covered :
        (i q : ℕ)
        → get_elem? (set s.cs k (suc s.tag)) i ≡ some q
        → is_open (h q) ≡ true
        → (elem q (remove p s.pc2c) || elem q ps) ≡ true
    covered i q e up = elim (set-get s.cs k i (suc s.tag) q e) [
      | inl (at, same) ↦
          let shut : is_open (h q) ≡ false = ap (λ (c : Client). is_open c) (new q same) in
          absurd (true-false (sym up ∙ shut))
      | inr (at, there) ↦
          let b = v.slots i q there in
          let was = subst (λ (c : Client). is_open c ≡ true) (old q b.1) up in
          ground (arith, elem-remove p q s.pc2c, v.covered i q there was, other i q at b.0)
    ]

-- What retiring, and then queueing, a client keeps.
retire_to-IsCovered :
    (env : Env) (s : Clients) (ps : List ℕ) (r : Recycle) (p : ℕ)
    → IsCovered s ps
    → IsCovered (retire_to env s r p) ps
unfolding retire_to
retire_to-IsCovered env s ps r p v =
    let w = retire-IsCovered s ps p v in
    let sh = push-Shuts env (retire s p).heap r p in
    record {
      slots = λ i q e. (sh.same q ∙ (w.slots i q e).0, (w.slots i q e).1);
      covered = λ i q e up. w.covered i q e (sh.closer q up);
    }

pub close-IsCovered :
    (env : Env) (s : Clients) (ps : List ℕ) (p : ℕ)
    → IsCovered s ps
    → IsCovered (edit s p (close env (s.heap p)).0) ps
close-IsCovered env s ps p v =
    edit-IsCovered s ps p _ (close-index env (s.heap p))
      (λ up. absurd (true-false (sym up ∙ close-is_closed env (s.heap p)))) v

-- A client that is closed need not be in the map.
forget-IsCovered :
    (env : Env) (s : Clients) (ps : List ℕ) (p : ℕ)
    → IsCovered s ps
    → IsCovered (edit (record s { pc2c = remove p s.pc2c }) p (close env (s.heap p)).0) ps
forget-IsCovered env s ps p v =
    let w = close-IsCovered env s ps p v in
    record {
      slots = w.slots;
      covered = λ i q e up.
          ground (arith, elem-remove p q s.pc2c, w.covered i q e up, closed q up (p == q) refl);
    }
  where
    closed :
        (q : ℕ)
        → is_open (update s.heap p (close env (s.heap p)).0 q) ≡ true
        → (b : Bool) → (p == q) ≡ b
        → (p == q) ≡ false
    closed q up false t = t
    closed q up true t = absurd (true-false (sym (rw t at up) ∙ close-is_closed env (s.heap p)))

pub move_recycle-IsCovered :
    (env : Env) (s : Clients) (ps : List ℕ) (p : ℕ)
    → IsCovered s ps
    → IsCovered (move_recycle env s p).0 ps
unfolding move_recycle
move_recycle-IsCovered env s ps p v = by (elem p s.pc2c) s.recycle
  where
    by :
        (b : Bool) (o : Option Recycle)
        → IsCovered
            (if◌then◌else◌ {A = Clients × Option ℕ} b
              (elim o as (λ x. Clients × Option ℕ) [
                | none ↦
                    (edit (record s { pc2c = remove p s.pc2c }) p (close env (s.heap p)).0, some p)
                | some r ↦ (retire_to env s r p, some p)
              ])
              (elim o as (λ x. Clients × Option ℕ) [
                | none ↦ (s, none)
                | some r ↦ (s, jkfr.Pool.Recycle.find r p)
              ])).0
            ps
    by true none = forget-IsCovered env s ps p v
    by true (some r) = retire_to-IsCovered env s ps r p v
    by false none = v
    by false (some r) = v

pub remove_if_idle-IsCovered :
    (env : Env) (s : Clients) (ps : List ℕ) (p : ℕ)
    → IsCovered s ps
    → IsCovered (remove_if_idle env s p) ps
unfolding remove_if_idle
remove_if_idle-IsCovered env s ps p v = by (is_kept s.o env (s.heap p)) s.recycle
  where
    by :
        (b : Bool) (o : Option Recycle)
        → IsCovered
            (if b then s else elim o as (λ x. Clients) [
              | some r ↦ retire_to env s r p
              | none ↦ edit s p (close env (s.heap p)).0
            ])
            ps
    by true o = v
    by false none = close-IsCovered env s ps p v
    by false (some r) = retire_to-IsCovered env s ps r p v
