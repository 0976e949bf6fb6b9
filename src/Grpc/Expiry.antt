-- ===== src/Grpc/Expiry.antt =====
-- remove_idle_time_out of gokit/transport/pool/grpc/pools.go ends, and removes the idle pools.
use jkfr.Prelude.{
  ℕ, zero, suc, ◌+◌, ◌≤◌, ◌<◌, ◌≡◌, refl, sym, ap, subst, ◌∙◌, inl, inr, Bool, true, false, none,
  some, List, [], ◌∷◌, ◌++◌, arith, if◌then◌else◌, length, get_elem?, take, drop, Bool-cases,
  Option-cases, get_elem?-lt,
}
use jkfr.Grpc.{GrpcPools, StPool, Net, taken_out, remove_index, without}
use jkfr.Grpc.Idle.{is_expired, expire, remove_idle_time_out}
use jkfr.Grpc.Cut.{cut, without-cut}

-- The pools that stay, in their order, and what is closed after going over the pools once.
abbrev pub keepers : (ℕ → Bool) → List ℕ → List ℕ
keepers dead [] = []
keepers dead (p ∷ ps) = if dead p then keepers dead ps else p ∷ keepers dead ps

abbrev pub closed_after : (ℕ → Bool) → (ℕ → StPool) → List ℕ → List ℕ → List ℕ
closed_after dead st [] closed = closed
closed_after dead st (p ∷ ps) closed =
    closed_after dead st ps (if dead p then (st p).net ∷ closed else closed)

module _ (p : ℕ) where
  drop-at : (ps : List ℕ) (i : ℕ) → get_elem? ps i ≡ some p → drop i ps ≡ p ∷ drop (suc i) ps
  drop-at [] i e = cc
  drop-at (x ∷ ps) zero e = cc
  drop-at (x ∷ ps) (suc i) e = drop-at ps i e

  take-at : (ps : List ℕ) (i : ℕ) → get_elem? ps i ≡ some p → take (suc i) ps ≡ take i ps ++ p ∷ []
  take-at [] i e = cc
  take-at (x ∷ ps) zero e = cc
  take-at (x ∷ ps) (suc i) e = ap (λ ys. x ∷ ys) (take-at ps i e)

  take-cut_at : (ps : List ℕ) (i : ℕ) → get_elem? ps i ≡ some p → take i (cut ps i) ≡ take i ps
  take-cut_at [] i e = cc
  take-cut_at (x ∷ ps) zero e = refl
  take-cut_at (x ∷ ps) (suc i) e = ap (λ ys. x ∷ ys) (take-cut_at ps i e)

  drop-cut_at :
      (ps : List ℕ) (i : ℕ) → get_elem? ps i ≡ some p → drop i (cut ps i) ≡ drop (suc i) ps
  drop-cut_at [] i e = cc
  drop-cut_at (x ∷ ps) zero e = refl
  drop-cut_at (x ∷ ps) (suc i) e = drop-cut_at ps i e

  length-cut : (ps : List ℕ) (i : ℕ) → get_elem? ps i ≡ some p → suc (length (cut ps i)) ≡ length ps
  length-cut [] i e = cc
  length-cut (x ∷ ps) zero e = refl
  length-cut (x ∷ ps) (suc i) e = ap suc (length-cut ps i e)

past_end : (ps : List ℕ) (i : ℕ) → get_elem? ps i ≡ none → (take i ps ≡ ps) × (drop i ps ≡ [])
past_end [] zero e = (refl, refl)
past_end [] (suc i) e = (refl, refl)
past_end (x ∷ ps) zero e = cc
past_end (x ∷ ps) (suc i) e = let (t, d) = past_end ps i e in (ap (λ ys. x ∷ ys) t, d)

append-nil : (xs : List ℕ) → xs ++ [] ≡ xs
append-nil [] = refl
append-nil (x ∷ xs) = ap (λ ys. x ∷ ys) (append-nil xs)

append-cons : (xs : List ℕ) (p : ℕ) (ys : List ℕ) → (xs ++ p ∷ []) ++ ys ≡ xs ++ p ∷ ys
append-cons [] p ys = refl
append-cons (x ∷ xs) p ys = ap (λ zs. x ∷ zs) (append-cons xs p ys)

-- What the loop does from an index on.
abbrev Swept : Net → GrpcPools → ℕ → GrpcPools → Type 0
Swept env s i t =
    (t.pools ≡ take i s.pools ++ keepers (is_expired env s) (drop i s.pools))
    × (t.closed ≡ closed_after (is_expired env s) s.store (drop i s.pools) s.closed)
    × (t.store ≡ s.store)

expired-Swept :
    (env : Net) (s : GrpcPools) (i p : ℕ) (t : GrpcPools)
    → get_elem? s.pools i ≡ some p
    → is_expired env s p ≡ true
    → Swept env (taken_out s i p) i t
    → Swept env s i t
expired-Swept env s i p t at dead (a, b, c) = (
  a
      ∙ ap (λ ps. take i ps ++ keepers (is_expired env s) (drop i ps)) (without-cut s.pools i)
      ∙ ap (λ ps. ps ++ keepers (is_expired env s) (drop i (cut s.pools i)))
          (take-cut_at p s.pools i at)
      ∙ ap (λ ps. take i s.pools ++ keepers (is_expired env s) ps) (drop-cut_at p s.pools i at)
      ∙ ap
          (λ (d : Bool).
            take i s.pools
            ++ (if d
                then keepers (is_expired env s) (drop (suc i) s.pools)
                else p ∷ keepers (is_expired env s) (drop (suc i) s.pools)))
          (sym dead)
      ∙ ap (λ ps. take i s.pools ++ keepers (is_expired env s) ps) (sym (drop-at p s.pools i at)),
  b
      ∙ ap (λ ps. closed_after (is_expired env s) s.store (drop i ps) ((s.store p).net ∷ s.closed))
          (without-cut s.pools i)
      ∙ ap (λ ps. closed_after (is_expired env s) s.store ps ((s.store p).net ∷ s.closed))
          (drop-cut_at p s.pools i at)
      ∙ ap
          (λ (d : Bool).
            closed_after (is_expired env s) s.store (drop (suc i) s.pools)
              (if d then (s.store p).net ∷ s.closed else s.closed))
          (sym dead)
      ∙ ap (λ ps. closed_after (is_expired env s) s.store ps s.closed)
          (sym (drop-at p s.pools i at)),
  c,
)

kept-Swept :
    (env : Net) (s : GrpcPools) (i p : ℕ) (t : GrpcPools)
    → get_elem? s.pools i ≡ some p
    → is_expired env s p ≡ false
    → Swept env s (suc i) t
    → Swept env s i t
kept-Swept env s i p t at live (a, b, c) = (
  a
      ∙ ap (λ ps. ps ++ keepers (is_expired env s) (drop (suc i) s.pools)) (take-at p s.pools i at)
      ∙ append-cons (take i s.pools) p (keepers (is_expired env s) (drop (suc i) s.pools))
      ∙ ap
          (λ (d : Bool).
            take i s.pools
            ++ (if d
                then keepers (is_expired env s) (drop (suc i) s.pools)
                else p ∷ keepers (is_expired env s) (drop (suc i) s.pools)))
          (sym live)
      ∙ ap (λ ps. take i s.pools ++ keepers (is_expired env s) ps) (sym (drop-at p s.pools i at)),
  b
      ∙ ap
          (λ (d : Bool).
            closed_after (is_expired env s) s.store (drop (suc i) s.pools)
              (if d then (s.store p).net ∷ s.closed else s.closed))
          (sym live)
      ∙ ap (λ ps. closed_after (is_expired env s) s.store ps s.closed)
          (sym (drop-at p s.pools i at)),
  c,
)

expire-Swept :
    (fuel : ℕ) (env : Net) (s : GrpcPools) (i : ℕ)
    → i ≤ length s.pools
    → length s.pools < fuel + i
    → (t : GrpcPools) × (expire fuel env s i ≡ some t) × Swept env s i t
unfolding expire remove_index
expire-Swept zero env s i l h = absurd (omega (arith, l, h))
expire-Swept (suc fuel) env s i l h = elim (Option-cases (get_elem? s.pools i)) [
  | inl e ↦
      let (t, d) = past_end s.pools i e in
      (
        s,
        rw (e, expire) refl,
        (
          sym (append-nil s.pools)
              ∙ ap (λ ps. ps ++ []) (sym t)
              ∙ ap (λ ps. take i s.pools ++ keepers (is_expired env s) ps) (sym d),
          ap (λ ps. closed_after (is_expired env s) s.store ps s.closed) (sym d),
          refl,
        ),
      )
  | inr (p, at) ↦ elim (Bool-cases (is_expired env s p)) [
    | inl dead ↦
        let shorter : suc (length (without s.pools i)) ≡ length s.pools =
          ap (λ (ps : List ℕ). suc (length ps)) (without-cut s.pools i)
          ∙ length-cut p s.pools i at in
        let (t, ran, sw) =
          expire-Swept fuel env (taken_out s i p) i
            (omega (arith, shorter, get_elem?-lt s.pools i p at)) (omega (arith, shorter, h)) in
        (t, simp (at, dead, expire, remove_index) ran, expired-Swept env s i p t at dead sw)
    | inr live ↦
        let next : i + 1 ≡ suc i = omega arith in
        let (t, ran, sw) =
          expire-Swept fuel env s (i + 1) (omega (arith, get_elem?-lt s.pools i p at))
            (omega (arith, h)) in
        (
          t,
          simp (at, live, expire, remove_index) ran,
          kept-Swept env s i p t at live (subst (λ j. Swept env s j t) next sw),
        )
  ]
]

-- remove_idle_time_out ends. It takes exactly the expired pools off the list and leaves the order of
-- the others, closes the GRPCPools of those that it takes off and no others, and changes no pool.
pub remove_idle_time_out-keepers :
    (env : Net) (s : GrpcPools)
    → (t : GrpcPools) × (remove_idle_time_out env s ≡ some t)
      × (t.pools ≡ keepers (is_expired env s) s.pools)
      × (t.closed ≡ closed_after (is_expired env s) s.store s.pools s.closed)
      × (t.store ≡ s.store)
unfolding remove_idle_time_out
remove_idle_time_out-keepers env s =
    let (t, ran, (left, closed, same)) =
      expire-Swept (suc (length s.pools)) env s 0 (omega arith) (omega arith) in
    (t, ran, left, closed, same)
