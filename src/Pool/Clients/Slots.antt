-- ===== src/Pool/Clients/Slots.antt =====
-- The invariant of `clients` in gokit/transport/pool/pool.go while the pool is open, over its parts:
-- the heap, the tag counter, the slots, the connected tags and the recycle list.
use jkfr.Prelude.{
  ℕ, suc, ◌≤◌, ◌≡◌, ◌≢◌, sym, ap, subst, ◌∙◌, ◌⊎◌, inl, inr, true, some, List, arith, ◌==◌,
  if◌then◌else◌, length, length-set, get_elem?, get_elem?-set, get_elem?-lt, set, elem, remove,
  insert, elem-remove, elem-insert, NoDup, remove-NoDup, insert-NoDup, Bool-cases,
}
use jkfr.Pool.Options.{Options}
use jkfr.Pool.Client.{Client, Heap, update, new_client, is_open}

-- Every slot holds its own client, and exactly the connected ones stand in the map; what waits to be
-- closed is in no slot.
pub record IsSound (o : Options) (h : Heap) (tag : ℕ) (cs keys queue : List ℕ) : Type 0 where
  pub sized : length cs ≡ o.max_cap
  pub slots : (i p : ℕ) → get_elem? cs i ≡ some p → ((h p).index ≡ i) × (p ≤ tag)
  pub live :
      (p : ℕ) → elem p keys ≡ true → (get_elem? cs (h p).index ≡ some p) × (is_open (h p) ≡ true)
  pub listed : (i p : ℕ) → get_elem? cs i ≡ some p → is_open (h p) ≡ true → elem p keys ≡ true
  pub once : NoDup keys
  pub apart : (p : ℕ) → elem p queue ≡ true → (get_elem? cs (h p).index ≢ some p) × (p ≤ tag)

module _ (o : Options) (h : Heap) (tag : ℕ) (cs keys queue : List ℕ) where
  -- Changes that leave each client's index alone, and whether a slot's client is connected.
  pub IsSound-frame :
      (h' : Heap) (queue' : List ℕ)
      → ((p : ℕ) → (h' p).index ≡ (h p).index)
      → ((p : ℕ) → get_elem? cs (h p).index ≡ some p → is_open (h' p) ≡ is_open (h p))
      → ((p : ℕ) → elem p queue' ≡ true → elem p queue ≡ true)
      → IsSound o h tag cs keys queue
      → IsSound o h' tag cs keys queue'
  IsSound-frame h' queue' same_index same_open fewer v = record {
    sized = v.sized;
    slots = λ i p e. (same_index p ∙ (v.slots i p e).0, (v.slots i p e).1);
    live = λ p m.
        let l = v.live p m in (ap (get_elem? cs) (same_index p) ∙ l.0, same_open p l.0 ∙ l.1);
    listed = λ i p e c.
        let at : get_elem? cs (h p).index ≡ some p = ap (get_elem? cs) (v.slots i p e).0 ∙ e in
        v.listed i p e (sym (same_open p at) ∙ c);
    once = v.once;
    apart = λ p m.
        let a = v.apart p (fewer p m) in
        (λ e. a.0 (sym (ap (get_elem? cs) (same_index p)) ∙ e), a.1);
  }

  pub own_slot :
      (i p : ℕ)
      → get_elem? cs i ≡ some p
      → IsSound o h tag cs keys queue
      → get_elem? cs (h p).index ≡ some p
  own_slot i p at v = ap (get_elem? cs) (v.slots i p at).0 ∙ at

  -- The client of slot `i` has been connected and put in the map.
  pub IsSound-connect :
      (i p : ℕ) (c : Client)
      → get_elem? cs i ≡ some p
      → c.index ≡ (h p).index
      → is_open c ≡ true
      → IsSound o h tag cs keys queue
      → IsSound o (update h p c) tag cs (insert p keys) queue
  IsSound-connect i p c at same opened v = record {
    sized = v.sized;
    slots = λ j q e. ground (arith, v.slots j q e, v.slots j p, v.slots i p at, same);
    live = λ q m. elim (Bool-cases (p == q)) [
      | inl e ↦
          let p≡q : p ≡ q = ground arith in
          subst
            (λ u.
              (get_elem? cs (update h p c u).index ≡ some u) × (is_open (update h p c u) ≡ true))
            p≡q (ground (arith, v.slots i p at))
      | inr e ↦ rw e (v.live q (ground (arith, elem-insert p q keys)))
    ];
    listed = λ j q e d. elim (Bool-cases (p == q)) [
      | inl f ↦ elem-insert p q keys ∙ (rw f)
      | inr f ↦ elem-insert p q keys ∙ (rw f (v.listed j q e (rw f at d)))
    ];
    once = insert-NoDup p keys v.once;
    apart = λ q m. elim (Bool-cases (p == q)) [
      | inl e ↦
          let p≡q : p ≡ q = ground arith in
          absurd (
            (v.apart q m).0
              (subst (λ u. get_elem? cs (h u).index ≡ some u) p≡q (own_slot i p at v)))
      | inr e ↦ rw e (v.apart q m)
    ];
  }

module _ (o : Options) (h : Heap) (tag : ℕ) (cs keys queue : List ℕ) (i p : ℕ)
    (at : get_elem? cs i ≡ some p) (v : IsSound o h tag cs keys queue) where
  abbrev pub fresh_heap : Heap
  fresh_heap = update h (suc tag) (new_client i)

  in_slot :
      (j q : ℕ)
      → get_elem? (set cs i (suc tag)) j ≡ (if i == j then some (suc tag) else get_elem? cs j)
  in_slot j q = get_elem?-set cs i j (suc tag) (get_elem?-lt cs i p at)

  retire-slots :
      (j q : ℕ)
      → get_elem? (set cs i (suc tag)) j ≡ some q
      → ((fresh_heap q).index ≡ j) × (q ≤ suc tag)
  retire-slots j q e = ground (arith, in_slot j q, v.slots j q)

  retire-live :
      (q : ℕ)
      → elem q (remove p keys) ≡ true
      → (get_elem? (set cs i (suc tag)) (fresh_heap q).index ≡ some q)
        × (is_open (fresh_heap q) ≡ true)
  retire-live q m =
      ground
        (arith, elem-remove p q keys, v.live q, in_slot (h q).index q, v.slots (h q).index q, at)

  retire-listed :
      (j q : ℕ)
      → get_elem? (set cs i (suc tag)) j ≡ some q
      → is_open (fresh_heap q) ≡ true
      → elem q (remove p keys) ≡ true
  retire-listed j q e c =
      ground (arith, elem-remove p q keys, in_slot j q, v.slots j q, v.slots i p at, v.listed j q)

  pub retire-apart :
      (q : ℕ)
      → (elem q queue ≡ true) ⊎ (q ≡ p)
      → (get_elem? (set cs i (suc tag)) (fresh_heap q).index ≢ some q) × (q ≤ suc tag)
  retire-apart q (inl m) =
      (λ e. ground (arith, in_slot (h q).index q, v.apart q m), omega (arith, (v.apart q m).1))
  retire-apart q (inr m) = (
    λ e. ground (arith, in_slot (h q).index q, v.slots i p at, ap (λ (u : ℕ). (h u).index) m),
    omega (arith, (v.slots i p at).1, m),
  )

  -- Slot `i` gets a fresh client, and its old client may be queued.
  pub IsSound-retire :
      (queue' : List ℕ)
      → ((q : ℕ) → elem q queue' ≡ true → (elem q queue ≡ true) ⊎ (q ≡ p))
      → IsSound o fresh_heap (suc tag) (set cs i (suc tag)) (remove p keys) queue'
  IsSound-retire queue' fewer = record {
    sized = length-set cs i (suc tag) ∙ v.sized;
    slots = retire-slots;
    live = retire-live;
    listed = retire-listed;
    once = remove-NoDup p keys v.once;
    apart = λ q m. retire-apart q (fewer q m);
  }
