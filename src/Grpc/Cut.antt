-- ===== src/Grpc/Cut.antt =====
-- Taking an element out of the list of pools, in
-- gokit/transport/pool/grpc/pools.go.
use jkfr.Prelude.{
  ℕ, zero, suc, ◌≡◌, refl, ap, inl, inr, false, some, List, [], ◌∷◌, ◌++◌, arith, ltb, ◌==◌,
  if◌then◌else◌, length, get_elem?, take, drop, elem, NoDup, Bool-cases, get_elem?-elem,
}
use jkfr.Grpc.{without}

abbrev pub cut : List ℕ → ℕ → List ℕ
cut [] i = []
cut (x ∷ xs) zero = xs
cut (x ∷ xs) (suc i) = x ∷ cut xs i

take-drop-cut : (ps : List ℕ) (i : ℕ) → take i ps ++ drop (suc i) ps ≡ cut ps i
take-drop-cut [] zero = refl
take-drop-cut [] (suc i) = refl
take-drop-cut (x ∷ xs) zero = refl
take-drop-cut (x ∷ xs) (suc i) = ap (λ ys. x ∷ ys) (take-drop-cut xs i)

take-cut : (ps : List ℕ) (i : ℕ) → ltb (suc i) (length ps) ≡ false → take i ps ≡ cut ps i
take-cut [] zero h = refl
take-cut [] (suc i) h = refl
take-cut (x ∷ []) zero h = refl
take-cut (x ∷ y ∷ xs) zero h = ground arith
take-cut (x ∷ xs) (suc i) h = ap (λ ys. x ∷ ys) (take-cut xs i (ground arith))

pub without-cut : (ps : List ℕ) (i : ℕ) → without ps i ≡ cut ps i
without-cut ps i = elim (Bool-cases (ltb (suc i) (length ps))) [
  | inl t ↦ ground (arith, take-drop-cut ps i)
  | inr t ↦ ground (arith, take-cut ps i)
]

pub elem-cut :
    (ps : List ℕ) (i p q : ℕ)
    → NoDup ps
    → get_elem? ps i ≡ some p
    → elem q (cut ps i) ≡ (if p == q then false else elem q ps)
unfolding elem
elem-cut [] i p q n e = cc
elem-cut (x ∷ xs) zero p q n e = let x≡p : x ≡ p = cc in ground (arith, x≡p, n.0)
elem-cut (x ∷ xs) (suc i) p q n e =
    ground (arith, elem-cut xs i p q n.1 e, get_elem?-elem xs i p e, n.0)

pub cut-NoDup : (ps : List ℕ) (i : ℕ) → NoDup ps → NoDup (cut ps i)
unfolding elem
cut-NoDup [] i n = tt
cut-NoDup (x ∷ xs) zero n = n.1
cut-NoDup (x ∷ xs) (suc i) n = (absent xs i n.0, cut-NoDup xs i n.1)
  where
    absent : (ys : List ℕ) (j : ℕ) → elem x ys ≡ false → elem x (cut ys j) ≡ false
    absent [] j h = h
    absent (y ∷ ys) zero h = ground arith
    absent (y ∷ ys) (suc j) h = ground (arith, absent ys j)
