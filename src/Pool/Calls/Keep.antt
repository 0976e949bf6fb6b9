-- ===== src/Pool/Calls/Keep.antt =====
-- The exported calls of `Pool` in gokit/transport/pool/pool.go, and the goroutine of its recycle list,
-- keep the invariant of an open pool.
use jkfr.Prelude.{
  ℕ, ◌+◌, ◌≤◌, ◌≡◌, refl, sym, ap, subst, ◌∙◌, ◌⊎◌, inl, inr, Bool, true, false, Option, none, some,
  List, [], ◌∷◌, arith, ◌==◌, if◌then◌else◌, is_some, is_none, length, get_elem?, elem, pos, negsuc,
  Bool-cases, Option-cases,
}
use jkfr.Pool.Client.{Client, Env, Heap, is_open, close, add_ref}
use jkfr.Pool.Recycle
use jkfr.Pool.Recycle.{Recycle}
use jkfr.Pool.Recycle.Invariant.{close-handle}
use jkfr.Pool.Recycle.Effect.{close-index, close-is_closed}
use jkfr.Pool.Recycle.Drain.{IsWoken}
use jkfr.Pool.Clients.{Clients, Got, got, failed, fault, get, move_recycle}
use jkfr.Pool.Clients.Slots.{IsSound-frame}
use jkfr.Pool.Clients.Keep.{IsOpen, IsWhole-frame, Factories}
use jkfr.Pool.Clients.Retire.{move_recycle-IsOpen}
use jkfr.Pool.Clients.Get.{get-IsOpen}
use jkfr.Pool.Calls.{Pool, edit, hand_out, get_client, put_bad, put}

-- A change to any client that keeps its slot, its handle and, if it has a slot, its connection.
edit-IsOpen :
    (s : Clients) (p : ℕ) (c : Client)
    → IsOpen s
    → c.index ≡ (s.heap p).index
    → is_some c.handle ≡ is_some (s.heap p).handle
    → (get_elem? s.cs (s.heap p).index ≡ some p → is_open c ≡ is_open (s.heap p))
    → IsOpen (edit s p c)
edit-IsOpen s p c v index handle opening = record {
  opened = v.opened;
  list = v.list;
  recycling = v.recycling;
  whole = IsWhole-frame s.heap _ v.list (λ t m. at_handle t (p == t) refl) v.whole;
  bounded = v.bounded;
  sound =
      IsSound-frame s.o s.heap s.tag s.cs s.pc2c v.list.clients _ v.list.clients
        (λ q. at_index q (p == q) refl) (λ q e. at_open q (p == q) refl e) (λ q m. m) v.sound;
}
  where
    at_handle :
        (q : ℕ) (b : Bool)
        → (p == q) ≡ b
        → is_some (if b then c else s.heap q).handle ≡ is_some (s.heap q).handle
    at_handle q true e =
        let p≡q : p ≡ q = ground arith in handle ∙ ap (λ (u : ℕ). is_some (s.heap u).handle) p≡q
    at_handle q false e = refl

    at_index :
        (q : ℕ) (b : Bool) → (p == q) ≡ b → (if b then c else s.heap q).index ≡ (s.heap q).index
    at_index q true e =
        let p≡q : p ≡ q = ground arith in index ∙ ap (λ (u : ℕ). (s.heap u).index) p≡q
    at_index q false e = refl

    at_open :
        (q : ℕ) (b : Bool)
        → (p == q) ≡ b
        → get_elem? s.cs (s.heap q).index ≡ some q
        → is_open (if b then c else s.heap q) ≡ is_open (s.heap q)
    at_open q true e at =
        let q≡p : q ≡ p = ground arith in
        opening (subst (λ u. get_elem? s.cs (s.heap u).index ≡ some u) q≡p at)
        ∙ ap (λ (u : ℕ). is_open (s.heap u)) (sym q≡p)
    at_open q false e at = refl

add_ref-keeps :
    (d : jkfr.Prelude.ℤ) (c : Client)
    → ((add_ref d c).index ≡ c.index)
      × (is_some (add_ref d c).handle ≡ is_some c.handle)
      × (is_open (add_ref d c) ≡ is_open c)
unfolding add_ref
add_ref-keeps d c = (refl, refl, refl)

hand_out-IsOpen : (env : Env) (r : Clients × Got) → IsOpen r.0 → IsOpen (hand_out env r).0
unfolding hand_out
hand_out-IsOpen env (s, got p) v =
    let k = add_ref-keeps (pos 1) (s.heap p) in edit-IsOpen s p _ v k.0 k.1 (λ e. k.2)
hand_out-IsOpen env (s, failed e) v = v
hand_out-IsOpen env (s, fault) v = v

-- What a pool keeps until it is closed.
abbrev pub Keeps : Pool → Type 0
Keeps pl = pl.locked ≡ false → IsOpen pl.clients

either-Keeps :
    {B : Type 0} (b : Bool) (r r' : Pool × B)
    → (b ≡ true → Keeps r.0)
    → (b ≡ false → Keeps r'.0)
    → Keeps (if b then r else r').0
either-Keeps true r r' k k' = k refl
either-Keeps false r r' k k' = k' refl

-- Get keeps the invariant.
pub get_client-Keeps :
    (env : Env) (pl : Pool) → Factories env → Keeps pl → Keeps (get_client env pl).0
unfolding get_client
get_client-Keeps env pl fs v =
    either-Keeps pl.locked _ _ (λ b. v)
      (λ b e. hand_out-IsOpen env (get env pl.clients) (get-IsOpen env pl.clients fs (v e)))

-- move_recycle finds no client only where it changes nothing, and the client is not in the map.
move_recycle-none :
    (env : Env) (s : Clients) (p : ℕ)
    → IsOpen s
    → (move_recycle env s p).1 ≡ none
    → ((move_recycle env s p).0 ≡ s) × (elem p s.pc2c ≡ false)
unfolding move_recycle Recycle.find
move_recycle-none env s p v e = elim (Bool-cases (elem p s.pc2c)) [
  | inl m ↦ absurd (found m (rw (m, v.recycling, move_recycle) at e))
  | inr m ↦ (simp (m, v.recycling, move_recycle), m)
]
  where
    found : elem p s.pc2c ≡ true → some p ≡ none → ⊥
    found m q = cc

-- What put_bad closes at once is not connected in a slot.
put_bad-IsOpen : (env : Env) (s : Clients) (p : ℕ) → IsOpen s → IsOpen (put_bad env s p)
unfolding put_bad
put_bad-IsOpen env s p v =
    go (move_recycle env s p) (move_recycle-none env s p v) (move_recycle-IsOpen env s p v)
  where
    unconnected : {k : Bool} (b : Bool) → (b ≡ true → k ≡ true) → k ≡ false → b ≡ false
    unconnected true h n = sym (h refl) ∙ n
    unconnected false h n = refl

    go :
        (m : Clients × Option ℕ)
        → (m.1 ≡ none → (m.0 ≡ s) × (elem p s.pc2c ≡ false))
        → IsOpen m.0
        → IsOpen (if is_none m.1 then edit m.0 p (close env (m.0.heap p)).0 else m.0)
    go (s', some q) h w = w
    go (s', none) h w =
        let (same, out) = h refl in
        let absent : elem p s'.pc2c ≡ false = rw same out in
        let c = s'.heap p in
        edit-IsOpen s' p (close env c).0 w (close-index env c) (ap is_some (close-handle env c))
          λ at.
            close-is_closed env c
            ∙ sym (unconnected (is_open c) (w.sound.listed c.index p at) absent)

-- Put keeps the invariant, for any client and whether it is good or bad.
pub put-Keeps :
    (env : Env) (pl : Pool) (c : Option ℕ) (good : Bool) → Keeps pl → Keeps (put env pl c good).0
unfolding put
put-Keeps env pl none good v = v
put-Keeps env pl (some p) good v =
    either-Keeps pl.locked _ _ (λ b e. cc) (λ b e. unref good (released (v e)))
  where
    less : Clients
    less = edit pl.clients p (add_ref (negsuc 0) (pl.clients.heap p))

    released : IsOpen pl.clients → IsOpen less
    released w =
        let k = add_ref-keeps (negsuc 0) (pl.clients.heap p) in
        edit-IsOpen pl.clients p _ w k.0 k.1 (λ at. k.2)

    unref : (b : Bool) → IsOpen less → IsOpen (if b then less else put_bad env less p)
    unref true w = w
    unref false w = put_bad-IsOpen env less p w

-- The clients after the goroutine of the recycle list has been woken.
abbrev pub woken : Clients → Heap × Recycle → Clients
woken s (h, r) = record s { heap = h; recycle = some r }

-- A wake-up of the goroutine keeps the invariant.
pub woken-IsOpen :
    (s : Clients) (v : IsOpen s) (t : Heap × Recycle)
    → IsWoken s.o s.heap v.list t
    → IsOpen (woken s t)
woken-IsOpen s v t w = record {
  opened = v.opened;
  list = t.1;
  recycling = refl;
  whole = w.whole;
  bounded = w.bounded;
  sound =
      IsSound-frame s.o s.heap s.tag s.cs s.pc2c v.list.clients t.0 t.1.clients w.index
        (λ p at.
          ap (λ (c : Client). is_open c) (w.others p (unqueued p at (elem p v.list.clients) refl)))
        w.fewer v.sound;
}
  where
    unqueued :
        (p : ℕ)
        → get_elem? s.cs (s.heap p).index ≡ some p
        → (b : Bool) → elem p v.list.clients ≡ b
        → elem p v.list.clients ≡ false
    unqueued p at true m = absurd ((v.sound.apart p m).0 at)
    unqueued p at false m = m
