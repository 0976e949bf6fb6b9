-- ===== src/ClientCache/Keep.antt =====
-- What each step of GetRPCClient of gokit/transport/rpc/client.go keeps: the phases fit the lock and the
-- map, and no client is lost.
use jkfr.Prelude.{
  ℕ, suc, ◌≤◌, ◌≡◌, refl, sym, ap, ◌∙◌, subst, ◌⊎◌, inl, inr, Bool, true, false, Option, none, some,
  List, ◌∷◌, arith, ◌==◌, if◌then◌else◌, lookup, Bool-cases,
}
use jkfr.ClientCache.{
  Phase, called, waiting, locked, missed, created, saved, returned, failed, NamedClients, phase_at,
  moved, first_look, locks, second_look, creates, saves,
}

-- What the lock and the map are, for a goroutine in a phase.
abbrev pub Fits : Option ℕ → List (ℕ × ℕ) → ℕ → Phase → Type 0
Fits holder m t called = Unit {0}
Fits holder m t (waiting n) = Unit {0}
Fits holder m t (locked n) = holder ≡ some t
Fits holder m t (missed n) = (holder ≡ some t) × (lookup n m ≡ none)
Fits holder m t (created n c) = (holder ≡ some t) × (lookup n m ≡ none)
Fits holder m t (saved n c) = (holder ≡ some t) × (lookup n m ≡ some c)
Fits holder m t (returned n c) = lookup n m ≡ some c
Fits holder m t failed = Unit {0}

-- Every client that NewClient has made is in the map, or a goroutine is about to save it.
abbrev pub IsKept : NamedClients → ℕ → Type 0
IsKept s c =
    ((n : ℕ) × (lookup n s.name2client ≡ some c)) ⊎ ((t : ℕ) × (n : ℕ) × (s.at t ≡ created n c))

pub record IsSound (s : NamedClients) : Type 0 where
  pub fits : (t : ℕ) → Fits s.holder s.name2client t (s.at t)
  pub kept : (c : ℕ) → 1 ≤ c → c ≤ s.made → IsKept s c

-- A goroutine that does not hold the lock does not mind who does, or an entry more.
unlocked-Fits :
    (holder holder' : Option ℕ) (m m' : List (ℕ × ℕ)) (t : ℕ) (p : Phase)
    → (holder ≡ some t → ⊥)
    → ((n c : ℕ) → lookup n m ≡ some c → lookup n m' ≡ some c)
    → Fits holder m t p
    → Fits holder' m' t p
unlocked-Fits holder holder' m m' t called free more v = tt
unlocked-Fits holder holder' m m' t (waiting n) free more v = tt
unlocked-Fits holder holder' m m' t (locked n) free more v = absurd (free v)
unlocked-Fits holder holder' m m' t (missed n) free more v = absurd (free v.0)
unlocked-Fits holder holder' m m' t (created n c) free more v = absurd (free v.0)
unlocked-Fits holder holder' m m' t (saved n c) free more v = absurd (free v.0)
unlocked-Fits holder holder' m m' t (returned n c) free more v = more n c v
unlocked-Fits holder holder' m m' t failed free more v = tt

-- A step of one goroutine: it fits its new phase, and the others do not hold the lock, or see no change.
pub moved-Fits :
    (s : NamedClients) (t : ℕ) (p : Phase) (holder : Option ℕ) (m : List (ℕ × ℕ))
    → IsSound s
    → Fits holder m t p
    → ((u : ℕ)
        → (t == u) ≡ false
        → Fits s.holder s.name2client u (s.at u)
        → Fits holder m u (s.at u))
    → (u : ℕ) → Fits holder m u (phase_at s.at t p u)
moved-Fits s t p holder m v here others u = by (t == u) refl
  where
    by : (b : Bool) → (t == u) ≡ b → Fits holder m u (if b then p else s.at u)
    by true e = let t≡u : t ≡ u = ground arith in subst (λ x. Fits holder m x p) t≡u here
    by false e = others u e (v.fits u)

-- A goroutine that is not about to save a client leaves the clients where they are.
moved-IsKept :
    (s : NamedClients) (t : ℕ) (p : Phase) (holder : Option ℕ)
    → IsSound s
    → ((n c : ℕ) → s.at t ≡ created n c → ⊥)
    → (c : ℕ) → 1 ≤ c
    → c ≤ s.made
    → IsKept (record (moved t p s) { holder = holder }) c
moved-IsKept s t p holder v away c lo hi = elim (v.kept c lo hi) [
  | inl k ↦ inl k
  | inr (u, n, e) ↦ inr (u, n, stays u n e)
]
  where
    stays : (u n : ℕ) → s.at u ≡ created n c → phase_at s.at t p u ≡ created n c
    stays u n e = elim (Bool-cases (t == u)) [
      | inl same ↦ let t≡u : t ≡ u = ground arith in absurd (away n c (ap s.at t≡u ∙ e))
      | inr other ↦ rw (other) e
    ]

taken : (t u : ℕ) → (t == u) ≡ false → some t ≡ some u → ⊥
taken t u far e = let t≡u : t ≡ u = cc in ground arith

-- A step of the goroutine that holds the lock, to a phase that it fits with the same map.
pub held-IsSound :
    (s : NamedClients) (t : ℕ) (p : Phase) (holder : Option ℕ)
    → IsSound s
    → s.holder ≡ some t
    → Fits holder s.name2client t p
    → ((n c : ℕ) → s.at t ≡ created n c → ⊥)
    → IsSound (record (moved t p s) { holder = holder })
held-IsSound s t p holder v mine here away = record {
  fits = moved-Fits s t p holder s.name2client v here (λ u far.
      unlocked-Fits s.holder holder s.name2client s.name2client u (s.at u)
        (λ e. taken t u far (sym mine ∙ e)) (λ n c e. e));
  kept = moved-IsKept s t p holder v away;
}

-- A step that leaves the lock and the map.
moved-IsSound :
    (s : NamedClients) (t : ℕ) (p : Phase)
    → IsSound s
    → Fits s.holder s.name2client t p
    → ((n c : ℕ) → s.at t ≡ created n c → ⊥)
    → IsSound (moved t p s)
moved-IsSound s t p v here away = record {
  fits = moved-Fits s t p s.holder s.name2client v here (λ u far w. w);
  kept = moved-IsKept s t p s.holder v away;
}

pub first_look-IsSound :
    (t name : ℕ) (o : Option ℕ) (s : NamedClients)
    → IsSound s
    → lookup name s.name2client ≡ o
    → ((n c : ℕ) → s.at t ≡ created n c → ⊥)
    → IsSound (first_look t name o s)
first_look-IsSound t name none s v e away = moved-IsSound s t (waiting name) v tt away
first_look-IsSound t name (some c) s v e away = moved-IsSound s t (returned name c) v e away

pub locks-IsSound :
    (t name : ℕ) (o : Option ℕ) (s : NamedClients)
    → IsSound s
    → s.holder ≡ o
    → ((n c : ℕ) → s.at t ≡ created n c → ⊥)
    → IsSound (locks t name o s)
locks-IsSound t name (some u) s v e away = v
locks-IsSound t name none s v e away = record {
  fits = moved-Fits s t (locked name) (some t) s.name2client v refl (λ u far.
      unlocked-Fits s.holder (some t) s.name2client s.name2client u (s.at u)
        (λ h. absurd (nobody (sym e ∙ h))) (λ n c h. h));
  kept = moved-IsKept s t (locked name) (some t) v away;
}
  where
    nobody : {u : ℕ} → none ≡ some u → ⊥
    nobody h = cc

pub second_look-IsSound :
    (t name : ℕ) (o : Option ℕ) (s : NamedClients)
    → IsSound s
    → s.holder ≡ some t
    → lookup name s.name2client ≡ o
    → ((n c : ℕ) → s.at t ≡ created n c → ⊥)
    → IsSound (second_look t name o s)
second_look-IsSound t name none s v mine e away =
    held-IsSound s t (missed name) s.holder v mine (mine, e) away
second_look-IsSound t name (some c) s v mine e away =
    held-IsSound s t (returned name c) none v mine e away

pub creates-IsSound :
    (t name : ℕ) (ok : Bool) (s : NamedClients)
    → IsSound s
    → (s.holder ≡ some t) × (lookup name s.name2client ≡ none)
    → ((n c : ℕ) → s.at t ≡ created n c → ⊥)
    → IsSound (creates t name ok s)
creates-IsSound t name false s v (mine, free) away = held-IsSound s t failed none v mine tt away
creates-IsSound t name true s v (mine, free) away = record {
  fits =
      moved-Fits s t (created name (suc s.made)) s.holder s.name2client v (mine, free)
        (λ u far w. w);
  kept = λ c lo hi. elim (Bool-cases (suc s.made == c)) [
    | inl new ↦
        let same : suc s.made ≡ c = ground arith in
        inr (t, name, ground (arith, ap (created name) same))
    | inr old ↦ moved-IsKept s t (created name (suc s.made)) s.holder v away c lo (ground arith)
  ];
}

pub saves-IsSound :
    (t name c : ℕ) (s : NamedClients)
    → IsSound s
    → (s.holder ≡ some t) × (lookup name s.name2client ≡ none)
    → s.at t ≡ created name c
    → IsSound (saves t name c s)
saves-IsSound t name c s v (mine, free) now = record {
  fits =
      moved-Fits s t (saved name c) s.holder ((name, c) ∷ s.name2client) v (mine, ground arith)
        (λ u far.
          unlocked-Fits s.holder s.holder s.name2client ((name, c) ∷ s.name2client) u (s.at u)
            (λ e. taken t u far (sym mine ∙ e)) more);
  kept = λ d lo hi. elim (v.kept d lo hi) [
    | inl (n, e) ↦ inl (n, more n d e)
    | inr (u, n, e) ↦ elim (Bool-cases (t == u)) [
      | inl same ↦
          let t≡u : t ≡ u = ground arith in
          inl (name, ground (arith, same_client n d (sym now ∙ ap s.at t≡u ∙ e)))
      | inr other ↦ inr (u, n, rw (other) e)
    ]
  ];
}
  where
    client_of : Phase → ℕ
    client_of (created n d) = d
    client_of p = 0

    same_client : (n d : ℕ) → created name c ≡ created n d → c ≡ d
    same_client n d e = ap client_of e

    more :
        (n d : ℕ) → lookup n s.name2client ≡ some d → lookup n ((name, c) ∷ s.name2client) ≡ some d
    more n d e = elim (Bool-cases (name == n)) [
      | inl same ↦
          let name≡n : name ≡ n = ground arith in
          let clash : none ≡ some d = sym free ∙ ap (λ a. lookup a s.name2client) name≡n ∙ e in cc
      | inr other ↦ ground (arith, e)
    ]
