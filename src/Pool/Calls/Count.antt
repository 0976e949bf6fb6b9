-- ===== src/Pool/Calls/Count.antt =====
-- ValidCount of gokit/transport/pool/pool.go counts the connected slots, in every history of a pool whose
-- calls do not overlap.
use jkfr.Prelude.{
  ℕ, suc, ◌≤◌, ◌≡◌, refl, subst, inl, inr, Bool, true, false, some, List, [], ◌∷◌, arith, ◌==◌,
  if◌then◌else◌, length, get_elem?, elem, NoDup, elem-get_elem?, get_elem?-elem, length-subset,
  Bool-cases,
}
use jkfr.Pool.Options.{Options}
use jkfr.Pool.Client.{Env, Heap, is_open}
use jkfr.Pool.Clients.{Clients, valid_count}
use jkfr.Pool.Clients.Keep.{IsOpen, Factories, InSlots, InSlots-all}
use jkfr.Pool.Calls.{Pool, made, new_pool, pool_valid_count}
use jkfr.Pool.Calls.Trace.{Reach, Reach-Keeps, new_pool-Keeps}

-- The slots' clients that are connected.
abbrev pub open_slots : Heap → List ℕ → List ℕ
open_slots h [] = []
open_slots h (p ∷ ps) = if is_open (h p) then p ∷ open_slots h ps else open_slots h ps

pub open_slots-elem :
    (h : Heap) (ps : List ℕ) (q : ℕ)
    → elem q (open_slots h ps) ≡ true
    → (elem q ps ≡ true) × (is_open (h q) ≡ true)
unfolding elem
open_slots-elem h [] q e = cc
open_slots-elem h (p ∷ ps) q e = elim (Bool-cases (is_open (h p))) [
  | inl o ↦ elim (Bool-cases (p == q)) [
    | inl t ↦ let p≡q : p ≡ q = ground arith in (rw t, subst (λ u. is_open (h u) ≡ true) p≡q o)
    | inr t ↦ let rest = open_slots-elem h ps q (ground arith) in (rw t rest.0, rest.1)
  ]
  | inr o ↦ let rest = open_slots-elem h ps q (rw o at e) in (ground (arith, rest.0), rest.1)
]

elem-open_slots :
    (h : Heap) (ps : List ℕ) (q : ℕ)
    → elem q ps ≡ true
    → is_open (h q) ≡ true
    → elem q (open_slots h ps) ≡ true
unfolding elem
elem-open_slots h [] q e o = cc
elem-open_slots h (p ∷ ps) q e o = elim (Bool-cases (p == q)) [
  | inl t ↦
      let q≡p : q ≡ p = ground arith in
      let up = subst (λ u. is_open (h u) ≡ true) q≡p o in rw up (rw t)
  | inr t ↦ let rest = elem-open_slots h ps q (rw t at e) o in ground arith
]

-- The clients of the slots from `j` on know that they are there, so none is there twice.
pub slots-NoDup :
    (h : Heap) (cs ps : List ℕ) (j : ℕ)
    → ((i p : ℕ) → get_elem? cs i ≡ some p → (h p).index ≡ i)
    → InSlots cs j ps
    → NoDup ps × ((q : ℕ) → elem q ps ≡ true → j ≤ (h q).index)
unfolding elem
slots-NoDup h cs [] j known a = (tt, λ q e. cc)
slots-NoDup h cs (p ∷ ps) j known a =
    let rest = slots-NoDup h cs ps (suc j) known a.1 in
    let spot = known j p a.0 in
    (
      (absent rest.1 spot, rest.0),
      λ q e. elim (Bool-cases (p == q)) [
        | inl t ↦
            let p≡q : p ≡ q = ground arith in subst (λ u. j ≤ (h u).index) p≡q (omega (arith, spot))
        | inr t ↦ omega (arith, rest.1 q (rw t at e))
      ],
    )
  where
    absent :
        ((q : ℕ) → elem q ps ≡ true → suc j ≤ (h q).index) → (h p).index ≡ j → elem p ps ≡ false
    absent later spot = elim (Bool-cases (elem p ps)) [
      | inl m ↦ absurd (omega (arith, later p m, spot))
      | inr m ↦ m
    ]

pub open_slots-NoDup : (h : Heap) (ps : List ℕ) → NoDup ps → NoDup (open_slots h ps)
open_slots-NoDup h [] n = tt
open_slots-NoDup h (p ∷ ps) n = elim (Bool-cases (is_open (h p))) [
  | inl o ↦ rw o (absent (elem p (open_slots h ps)) refl, open_slots-NoDup h ps n.1)
  | inr o ↦ rw o (open_slots-NoDup h ps n.1)
]
  where
    absent : (b : Bool) → elem p (open_slots h ps) ≡ b → elem p (open_slots h ps) ≡ false
    absent true m = cc ((open_slots-elem h ps p m).0)
    absent false m = m

-- The map of an open pool counts the connected slots.
pub valid_count-open_slots :
    (s : Clients) → IsOpen s → valid_count s ≡ length (open_slots s.heap s.cs)
unfolding valid_count
valid_count-open_slots s v =
    let (once, _) =
      slots-NoDup s.heap s.cs s.cs 0 (λ i p e. (v.sound.slots i p e).0) (InSlots-all s.cs) in
    let open_once = open_slots-NoDup s.heap s.cs once in
    let fwd =
      length-subset s.pc2c (open_slots s.heap s.cs) v.sound.once
        (λ q m.
          let l = v.sound.live q m in
          elem-open_slots s.heap s.cs q (get_elem?-elem s.cs (s.heap q).index q l.0) l.1)
        open_once in
    let bwd =
      length-subset (open_slots s.heap s.cs) s.pc2c open_once
        (λ q m.
          let (held, up) = open_slots-elem s.heap s.cs q m in
          let (i, at) = elem-get_elem? q s.cs held in v.sound.listed i q at up)
        v.sound.once in
    omega (arith, fwd, bwd)

-- After any steps of a pool that NewPool made, each a whole call or a whole round of a goroutine, with
-- factories that keep to their contract, ValidCount
-- is 0 if the pool is closed, and else the number of slots whose client is connected.
valid_count_exact :
    (env : Env) (o : Options) (h : Heap) (tag : ℕ) (made_pool pl : Pool)
    → Factories env
    → new_pool env o h tag ≡ made made_pool
    → Reach made_pool pl
    → pool_valid_count pl
      ≡ (if pl.locked then 0 else length (open_slots pl.clients.heap pl.clients.cs))
unfolding pool_valid_count
valid_count_exact env o h tag made_pool pl fs e r =
    by_lock pl.locked (Reach-Keeps r (new_pool-Keeps env o h tag made_pool fs e))
  where
    by_lock :
        (b : Bool)
        → (b ≡ false → IsOpen pl.clients)
        → (if b then 0 else valid_count pl.clients)
          ≡ (if b then 0 else length (open_slots pl.clients.heap pl.clients.cs))
    by_lock true v = refl
    by_lock false v = valid_count-open_slots pl.clients (v refl)
