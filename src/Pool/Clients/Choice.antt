-- ===== src/Pool/Clients/Choice.antt =====
-- Which slot `min_get` and `round_get` of gokit/transport/pool/pool.go choose.
use jkfr.Prelude.{
  ℕ, zero, suc, ◌%◌, ◌<◌, ◌≡◌, refl, ap, subst, ◌⊎◌, inl, inr, true, false, Option, none, some,
  List, [], ◌∷◌, arith, ◌==◌, length, get_elem?, get_elem?-some, take, elem, elem-get_elem?, ℤ, pos,
  ◌≤ℤ◌, leb_ℤ, ltb_ℤ, Bool-cases,
}
use jkfr.Pool.Client.{Heap}
use jkfr.Pool.Clients.{Clients, first_idle, least_ref, min_get, round_get, max_int64}

-- A client of the list that nobody uses, if there is one.
first_idle-cases :
    (h : Heap) (ps : List ℕ)
    → ((first_idle h ps ≡ none) × ((q : ℕ) → elem q ps ≡ true → leb_ℤ (h q).ref (pos 0) ≡ false))
      ⊎ ((p : ℕ) × (first_idle h ps ≡ some p) × (elem p ps ≡ true) × ((h p).ref ≤ℤ pos 0))
unfolding first_idle elem
first_idle-cases h [] = inl (refl, λ q m. cc)
first_idle-cases h (x ∷ ps) = elim (Bool-cases (leb_ℤ (h x).ref (pos 0))) [
  | inl e ↦ inr (x, rw e, ground arith, ground arith)
  | inr e ↦ elim (first_idle-cases h ps) [
    | inl (f, rest) ↦ inl (
      rw e f,
      λ q m. elim (Bool-cases (x == q)) [
        | inl t ↦ let x≡q : x ≡ q = ground arith in rw (← x≡q) e
        | inr t ↦ rest q (ground arith)
      ],
    )
    | inr (p, f, m, l) ↦ inr (p, rw e f, ground arith, l)
  ]
]

at_most-cons :
    (h : Heap) (m : ℤ) (x : ℕ) (ps : List ℕ)
    → m ≤ℤ (h x).ref
    → ((q : ℕ) → elem q ps ≡ true → m ≤ℤ (h q).ref)
    → (q : ℕ) → elem q (x ∷ ps) ≡ true
    → m ≤ℤ (h q).ref
unfolding elem
at_most-cons h m x ps l n q e = elim (Bool-cases (x == q)) [
  | inl t ↦ let x≡q : x ≡ q = ground arith in rw (← x≡q) l
  | inr t ↦ n q (ground arith)
]

-- What the loop of min_get answers when it starts from the bound `m` and the client `c`.
pub data Least (h : Heap) (m : ℤ) (c : Option ℕ) (ps : List ℕ) : Option ℕ → Type 0 where
  nobody : ((q : ℕ) → elem q ps ≡ true → m ≤ℤ (h q).ref) → Least h m c ps c
  somebody :
      (p : ℕ)
      → elem p ps ≡ true
      → ((q : ℕ) → elem q ps ≡ true → (h p).ref ≤ℤ (h q).ref)
      → (h p).ref ≤ℤ m
      → Least h m c ps (some p)

least_ref-Least :
    (h : Heap) (m : ℤ) (c : Option ℕ) (ps : List ℕ) → Least h m c ps (least_ref h m c ps)
unfolding least_ref elem
least_ref-Least h m c [] = nobody (λ q e. cc)
least_ref-Least h m c (x ∷ ps) = elim (Bool-cases (ltb_ℤ (h x).ref m)) [
  | inl e ↦ rw (e, least_ref) (lower x (ground arith) (least_ref-Least h (h x).ref (some x) ps))
  | inr e ↦ rw (e, least_ref) (keep x (ground arith) (least_ref-Least h m c ps))
]
  where
    lower :
        (x : ℕ) {r : Option ℕ}
        → (h x).ref ≤ℤ m
        → Least h (h x).ref (some x) ps r
        → Least h m c (x ∷ ps) r
    lower x l (nobody n) =
        somebody x (ground arith) (at_most-cons h (h x).ref x ps (omega arith) n) l
    lower x l (somebody p t n b) =
        somebody p (ground arith) (at_most-cons h (h p).ref x ps b n) (omega arith)

    keep : (x : ℕ) {r : Option ℕ} → m ≤ℤ (h x).ref → Least h m c ps r → Least h m c (x ∷ ps) r
    keep x l (nobody n) = nobody (at_most-cons h m x ps l n)
    keep x l (somebody p t n b) =
        somebody p (ground arith) (at_most-cons h (h p).ref x ps (omega arith) n) b

pub elem-take : (n q : ℕ) (ps : List ℕ) → elem q (take n ps) ≡ true → elem q ps ≡ true
unfolding elem
elem-take zero q ps e = cc
elem-take (suc n) q [] e = cc
elem-take (suc n) q (x ∷ ps) e = ground (arith, elem-take n q ps)

take-all : (n : ℕ) (ps : List ℕ) → length ps ≡ n → take n ps ≡ ps
take-all zero [] e = refl
take-all zero (x ∷ ps) e = absurd (omega arith)
take-all (suc n) [] e = refl
take-all (suc n) (x ∷ ps) e = ap (◌∷◌ x) (take-all n ps (omega arith))

-- The choice of min_get among the slots `cs`, of which the first `n` are preferred: an idle one of the
-- first `n`, or else one in use no more than any other.
pub data Chosen (h : Heap) (n : ℕ) (cs : List ℕ) : Option ℕ → Type 0 where
  preferred : (p : ℕ) → elem p (take n cs) ≡ true → (h p).ref ≤ℤ pos 0 → Chosen h n cs (some p)
  least :
      (p : ℕ)
      → elem p cs ≡ true
      → ((q : ℕ) → elem q cs ≡ true → (h p).ref ≤ℤ (h q).ref)
      → ((q : ℕ) → elem q (take n cs) ≡ true → leb_ℤ (h q).ref (pos 0) ≡ false)
      → Chosen h n cs (some p)

Least-Chosen :
    (h : Heap) (n : ℕ) (cs : List ℕ) (x : ℕ) {r : Option ℕ}
    → elem x cs ≡ true
    → ltb_ℤ (h x).ref max_int64 ≡ true
    → ((q : ℕ) → elem q (take n cs) ≡ true → leb_ℤ (h q).ref (pos 0) ≡ false)
    → Least h max_int64 none cs r
    → Chosen h n cs r
Least-Chosen h n cs x e l busy (nobody m) = absurd (ground (arith, m x e))
Least-Chosen h n cs x e l busy (somebody p m min b) = least p m min busy

-- In a pool of MaxCap slots, one of which has a counter below the greatest int64, min_get returns the
-- client of one of the first InitCap slots with a counter of at most 0, or, if those are all in use,
-- the client of a slot with the least counter.
pub min_get-Chosen :
    (s : Clients) (x : ℕ)
    → length s.cs ≡ s.o.max_cap
    → elem x s.cs ≡ true
    → ltb_ℤ (s.heap x).ref max_int64 ≡ true
    → Chosen s.heap s.o.init_cap s.cs (min_get s)
unfolding min_get
min_get-Chosen s x sized e l = elim (first_idle-cases s.heap (take s.o.init_cap s.cs)) [
  | inl (f, busy) ↦
      rw (f, min_get, take-all s.o.max_cap s.cs sized)
        (Least-Chosen s.heap s.o.init_cap s.cs x e l busy
          (least_ref-Least s.heap max_int64 none s.cs))
  | inr (p, f, m, idle) ↦ rw (f, min_get) (preferred p m idle)
]

-- A chosen client stands in a slot.
pub Chosen-slot :
    {h : Heap} {n : ℕ} {cs : List ℕ} {r : Option ℕ}
    → Chosen h n cs r
    → (p i : ℕ) × (r ≡ some p) × (get_elem? cs i ≡ some p)
Chosen-slot {cs} (preferred p m idle) =
    let (i, at) = elem-get_elem? p cs (elem-take _ p cs m) in (p, i, refl, at)
Chosen-slot {cs} (least p m min busy) = let (i, at) = elem-get_elem? p cs m in (p, i, refl, at)

-- round_get always finds a slot, if there is one; an idle slot of the first InitCap comes first.
pub round_get-slot :
    (s : Clients)
    → 0 < length s.cs
    → (p i : ℕ) × ((round_get s).1 ≡ some p) × (get_elem? s.cs i ≡ some p)
unfolding round_get
round_get-slot s ne = elim (first_idle-cases s.heap (take s.o.init_cap s.cs)) [
  | inl (f, busy) ↦
      let (p, at) = get_elem?-some s.cs (s.index % length s.cs) (grind arith) in
      (p, s.index % length s.cs, rw (f, round_get) at, at)
  | inr (p, f, m, idle) ↦
      let (i, at) = elem-get_elem? p s.cs (elem-take _ p s.cs m) in (p, i, rw (f, round_get), at)
]

Least-elem :
    {h : Heap} {m : ℤ} {ps : List ℕ} {r : Option ℕ} (p : ℕ)
    → Least h m none ps r
    → r ≡ some p
    → elem p ps ≡ true
Least-elem p (nobody n) e = cc
Least-elem {ps} p (somebody q m n b) e =
    let q≡p : q ≡ p = ground arith in subst (λ u. elem u ps ≡ true) q≡p m

-- Whatever min_get and round_get choose stands in a slot.
pub min_get-in : (s : Clients) (p : ℕ) → min_get s ≡ some p → (i : ℕ) × (get_elem? s.cs i ≡ some p)
unfolding min_get
min_get-in s p e = elim (first_idle-cases s.heap (take s.o.init_cap s.cs)) [
  | inl (f, busy) ↦ elem-get_elem? p s.cs (
      elem-take s.o.max_cap p s.cs (
        Least-elem p (least_ref-Least s.heap max_int64 none (take s.o.max_cap s.cs))
          (rw (f, min_get) at e)))
  | inr (q, f, m, idle) ↦
      let same : q ≡ p = ground arith in
      elem-get_elem? p s.cs
        (elem-take s.o.init_cap p s.cs (subst (λ u. elem u (take s.o.init_cap s.cs) ≡ true) same m))
]

pub round_get-in :
    (s : Clients) (p : ℕ) → (round_get s).1 ≡ some p → (i : ℕ) × (get_elem? s.cs i ≡ some p)
unfolding round_get
round_get-in s p e = elim (first_idle-cases s.heap (take s.o.init_cap s.cs)) [
  | inl (f, busy) ↦ (s.index % length s.cs, ground arith)
  | inr (q, f, m, idle) ↦
      let same : q ≡ p = ground arith in
      elem-get_elem? p s.cs
        (elem-take s.o.init_cap p s.cs (subst (λ u. elem u (take s.o.init_cap s.cs) ≡ true) same m))
]
