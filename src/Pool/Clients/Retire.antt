-- ===== src/Pool/Clients/Retire.antt =====
-- The methods of `clients` in gokit/transport/pool/pool.go that take a client out of its slot.
use jkfr.Prelude.{
  ℕ, suc, ◌≡◌, refl, ap, inl, inr, false, some, List, [], ◌∷◌, arith, ◌==◌, leb, get_elem?,
  get_elem?-lt, drop, set, elem, remove, Bool-cases,
}
use jkfr.Pool.Client.{Client, Env, Heap, is_open}
use jkfr.Pool.Recycle.{Recycle, push}
use jkfr.Pool.Recycle.Invariant.{IsWhole, push-IsWhole, push-IsBounded}
use jkfr.Pool.Recycle.Effect.{push-effect}
use jkfr.Pool.Clients.{
  Clients, retire, retire_to, move_recycle, remove_tag, remove_if_idle, is_kept, clear_slots,
  clear_idle, valid_count,
}
use jkfr.Pool.Clients.Slots.{
  IsSound, IsSound-frame, IsSound-retire, own_slot, retire-apart, fresh_heap,
}
use jkfr.Pool.Clients.Keep.{IsOpen, IsWhole-frame, InSlots, InSlots-drop, InSlots-set}

module _ (s : Clients) (v : IsOpen s) (p : ℕ) (at : get_elem? s.cs (s.heap p).index ≡ some p) where
  abbrev slot : ℕ
  slot = (s.heap p).index

  abbrev emptied : Heap
  emptied = fresh_heap s.o s.heap s.tag s.cs s.pc2c v.list.clients slot p at v.sound

  emptied-IsWhole : IsWhole emptied v.list
  emptied-IsWhole =
      IsWhole-frame s.heap emptied v.list (λ t m. ground (arith, v.sound.apart t m)) v.whole

  -- The slot has a fresh client, and the old one is dropped.
  retire-IsOpen : IsOpen (retire s p)
  unfolding retire
  retire-IsOpen = record {
    opened = v.opened;
    list = v.list;
    recycling = v.recycling;
    whole = emptied-IsWhole;
    bounded = v.bounded;
    sound =
        IsSound-retire s.o s.heap s.tag s.cs s.pc2c v.list.clients slot p at v.sound v.list.clients
          (λ q m. inl m);
  }

module _ (env : Env) (s : Clients) (v : IsOpen s) (p : ℕ)
    (at : get_elem? s.cs (s.heap p).index ≡ some p) where
  abbrev pushed : Heap × Recycle
  pushed = push env (emptied s v p at, v.list) p

  not_queued :
      (q : ℕ)
      → get_elem? (set s.cs (slot s v p at) (suc s.tag)) (emptied s v p at q).index ≡ some q
      → (elem q v.list.clients ≡ false) × ((p == q) ≡ false)
  not_queued q e = (
    elim (Bool-cases (elem q v.list.clients)) [
      | inl m ↦ absurd (
          (retire-apart s.o s.heap s.tag s.cs s.pc2c v.list.clients (slot s v p at) p at v.sound q
              (inl m)).0
            e)
      | inr m ↦ m
    ],
    elim (Bool-cases (p == q)) [
      | inl m ↦ absurd (
          (retire-apart s.o s.heap s.tag s.cs s.pc2c v.list.clients (slot s v p at) p at v.sound q
              (inr (ground arith))).0
            e)
      | inr m ↦ m
    ],
  )

  pushed-IsSound :
      IsSound s.o pushed.0
        (suc s.tag)
        (set s.cs (slot s v p at) (suc s.tag))
        (remove p s.pc2c)
        pushed.1.clients
  pushed-IsSound =
      let effect = λ (q : ℕ). push-effect env v.list p q (emptied s v p at) in
      IsSound-frame s.o (emptied s v p at) (suc s.tag) (set s.cs (slot s v p at) (suc s.tag))
        (remove p s.pc2c) pushed.1.clients pushed.0 pushed.1.clients (λ q. (effect q).0)
        (λ q e.
          let apart = not_queued q e in
          ap (λ (c : Client). is_open c) ((effect q).1 apart.0 apart.1))
        (λ q m. m)
        (IsSound-retire s.o s.heap s.tag s.cs s.pc2c v.list.clients (slot s v p at) p at v.sound
          pushed.1.clients (λ q. (effect q).2))

  -- The slot has a fresh client, and the old one waits to be closed.
  pub retire_to-IsOpen : IsOpen (retire_to env s v.list p)
  unfolding retire_to retire
  retire_to-IsOpen = record {
    opened = v.opened;
    list = pushed.1;
    recycling = refl;
    whole = push-IsWhole env (emptied s v p at) v.list p (emptied-IsWhole s v p at);
    bounded = push-IsBounded s.o env (emptied s v p at) v.list p v.bounded;
    sound = pushed-IsSound;
  }

-- remove keeps the invariant.
pub remove_tag-IsOpen : (s : Clients) (p : ℕ) → IsOpen s → IsOpen (remove_tag s p)
unfolding remove_tag
remove_tag-IsOpen s p v = elim (Bool-cases (elem p s.pc2c)) [
  | inl m ↦ rw (m, remove_tag) (retire-IsOpen s v p (v.sound.live p m).0)
  | inr m ↦ rw (m, remove_tag) v
]

module _ (env : Env) where
  -- move_recycle keeps the invariant, for a tag that stands in the map and for any other.
  pub move_recycle-IsOpen : (s : Clients) (p : ℕ) → IsOpen s → IsOpen (move_recycle env s p).0
  unfolding move_recycle
  move_recycle-IsOpen s p v = elim (Bool-cases (elem p s.pc2c)) [
    | inl m ↦ rw (m, v.recycling, move_recycle) (retire_to-IsOpen env s v p (v.sound.live p m).0)
    | inr m ↦ rw (m, v.recycling, move_recycle) v
  ]

  pub remove_if_idle-IsOpen :
      (s : Clients) (p : ℕ)
      → IsOpen s
      → get_elem? s.cs (s.heap p).index ≡ some p
      → IsOpen (remove_if_idle env s p)
  unfolding remove_if_idle
  remove_if_idle-IsOpen s p v at = elim (Bool-cases (is_kept s.o env (s.heap p))) [
    | inl k ↦ rw (k, remove_if_idle) v
    | inr k ↦ rw (k, v.recycling, remove_if_idle) (retire_to-IsOpen env s v p at)
  ]

  remove_if_idle-slots :
      (s : Clients) (j p : ℕ) (ps : List ℕ)
      → IsOpen s
      → get_elem? s.cs j ≡ some p
      → InSlots s.cs (suc j) ps
      → InSlots (remove_if_idle env s p).cs (suc j) ps
  unfolding remove_if_idle retire_to retire
  remove_if_idle-slots s j p ps v at a = elim (Bool-cases (is_kept s.o env (s.heap p))) [
    | inl k ↦ rw (k, remove_if_idle) a
    | inr k ↦
        rw (k, v.recycling, remove_if_idle)
          (rw (v.sound.slots j p at).0
            (InSlots-set s.cs j (suc s.tag) (suc j) ps (get_elem?-lt s.cs j p at) (omega arith) a))
  ]

  clear_slots-IsOpen :
      (s : Clients) (j : ℕ) (ps : List ℕ)
      → IsOpen s
      → InSlots s.cs j ps
      → IsOpen (clear_slots env s ps)
  unfolding clear_slots
  clear_slots-IsOpen s j [] v a = v
  clear_slots-IsOpen s j (p ∷ ps) v a =
      let at : get_elem? s.cs (s.heap p).index ≡ some p = own_slot _ _ _ _ _ _ j p a.0 v.sound in
      elim (Bool-cases (leb (valid_count s) s.o.init_cap)) [
        | inl e ↦ rw (e, clear_slots) v
        | inr e ↦
            rw (e, clear_slots)
              (clear_slots-IsOpen (remove_if_idle env s p) (suc j) ps
                (remove_if_idle-IsOpen s p v at) (remove_if_idle-slots s j p ps v a.0 a.1))
      ]

  -- clear_idle_time_out_client keeps the invariant.
  pub clear_idle-IsOpen : (s : Clients) → IsOpen s → IsOpen (clear_idle env s)
  unfolding clear_idle
  clear_idle-IsOpen s v =
      clear_slots-IsOpen s s.o.init_cap (drop s.o.init_cap s.cs) v (InSlots-drop s.o.init_cap s.cs)
