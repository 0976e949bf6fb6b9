-- ===== src/Prelude/Sets.antt =====
-- Lists of numbers as the key sets of Go maps, with Boolean membership.
use Prim.Native.Nat.{ℕ, zero, suc, ◌≤◌}
use mathlib.Core.Path.{◌≡◌, refl, ap}
use mathlib.Core.Bool.{Bool, true, false, ◌||◌}
use mathlib.Core.List.{List, [], ◌∷◌, ◌++◌}
use mathlib.Core.Option.{some}
use mathlib.Core.Logic.{inl, inr}
use native.Mathlib.Omega.{arith}
use jkfr.Prelude.Tests.{Bool-cases, ◌==◌, if◌then◌else◌}
use jkfr.Prelude.Lists.{length, get_elem?}

unfoldable pub elem : ℕ → List ℕ → Bool
elem y [] = false
elem y (x ∷ xs) = if x == y then true else elem y xs

-- `delete(m, x)`, and the removal of a list element.
unfoldable pub remove : ℕ → List ℕ → List ℕ
remove x [] = []
remove x (y ∷ ys) = if y == x then remove x ys else y ∷ remove x ys

-- `m[x] = …`: the order of a map is not observed, so a new key goes to the front.
unfoldable pub insert : ℕ → List ℕ → List ℕ
insert x xs = x ∷ remove x xs

pub elem-remove :
    (x y : ℕ) (ys : List ℕ) → elem y (remove x ys) ≡ (if x == y then false else elem y ys)
unfolding elem remove
elem-remove x y [] = ground arith
elem-remove x y (z ∷ ys) = ground (arith, elem-remove x y ys)

pub elem-insert :
    (x y : ℕ) (ys : List ℕ) → elem y (insert x ys) ≡ (if x == y then true else elem y ys)
unfolding insert elem
elem-insert x y ys = ground (arith, elem-remove x y ys)

pub elem-append : (y : ℕ) (xs ys : List ℕ) → elem y (xs ++ ys) ≡ elem y xs || elem y ys
unfolding elem
elem-append y [] ys = refl
elem-append y (x ∷ xs) ys = ground (arith, elem-append y xs ys)

-- No key twice.
abbrev pub NoDup : List ℕ → Type 0
NoDup [] = Unit {0}
NoDup (x ∷ xs) = (elem x xs ≡ false) × NoDup xs

pub remove-NoDup : (x : ℕ) (xs : List ℕ) → NoDup xs → NoDup (remove x xs)
unfolding remove
remove-NoDup x [] h = tt
remove-NoDup x (y ∷ ys) h = ground (arith, remove-NoDup x ys h.1, elem-remove x y ys)

pub insert-NoDup : (x : ℕ) (xs : List ℕ) → NoDup xs → NoDup (insert x xs)
unfolding insert
insert-NoDup x xs h = (ground (arith, elem-remove x x xs), remove-NoDup x xs h)

pub append-NoDup : (xs : List ℕ) (x : ℕ) → NoDup xs → elem x xs ≡ false → NoDup (xs ++ x ∷ [])
unfolding elem
append-NoDup [] x n e = (refl, tt)
append-NoDup (y ∷ xs) x n e =
    (ground (arith, elem-append y xs (x ∷ [])), append-NoDup xs x n.1 (ground arith))

pub length-remove-le : (x : ℕ) (xs : List ℕ) → length (remove x xs) ≤ length xs
unfolding remove
length-remove-le x [] = omega arith
length-remove-le x (y ∷ ys) = ground (arith, length-remove-le x ys)

pub remove-absent : (x : ℕ) (xs : List ℕ) → elem x xs ≡ false → remove x xs ≡ xs
unfolding remove elem
remove-absent x [] h = refl
remove-absent x (y ∷ ys) h = ground (arith, remove-absent x ys)

pub length-remove :
    (x : ℕ) (xs : List ℕ) → NoDup xs → elem x xs ≡ true → suc (length (remove x xs)) ≡ length xs
unfolding remove elem
length-remove x [] n h = ground arith
length-remove x (y ∷ ys) n h =
    ground (arith, length-remove x ys n.1, ap length (remove-absent y ys n.0), ==_eq y x)
  where
    ==_eq : (a b : ℕ) → (a == b) ≡ true → a ≡ b
    ==_eq a b e = ground arith

-- A set inside another, each without repetition, is no longer.
pub length-subset :
    (xs ys : List ℕ)
    → NoDup xs
    → ((y : ℕ) → elem y xs ≡ true → elem y ys ≡ true)
    → NoDup ys
    → length xs ≤ length ys
unfolding elem
length-subset [] ys n h m = omega arith
length-subset (x ∷ xs) ys n h m = omega (
  arith,
  length-subset xs (remove x ys) n.1 (λ y e. ground (arith, elem-remove x y ys, h y))
      (remove-NoDup x ys m),
  length-remove x ys m (h x (ground arith)),
)

pub get_elem?-elem : (xs : List ℕ) (i x : ℕ) → get_elem? xs i ≡ some x → elem x xs ≡ true
unfolding elem
get_elem?-elem [] i x e = cc
get_elem?-elem (y ∷ xs) zero x e = ground arith
get_elem?-elem (y ∷ xs) (suc i) x e = ground (arith, get_elem?-elem xs i x e)

pub elem-get_elem? : (q : ℕ) (xs : List ℕ) → elem q xs ≡ true → (i : ℕ) × (get_elem? xs i ≡ some q)
unfolding elem
elem-get_elem? q [] e = cc
elem-get_elem? q (x ∷ xs) e = elim (Bool-cases (x == q)) [
  | inl t ↦ (0, ground arith)
  | inr t ↦ let (i, at) = elem-get_elem? q xs (ground arith) in (suc i, at)
]

unfoldable pub filter : (ℕ → Bool) → List ℕ → List ℕ
filter f [] = []
filter f (p ∷ ps) = if f p then p ∷ filter f ps else filter f ps

pub filter-all :
    (f : ℕ → Bool) (ps : List ℕ) → ((p : ℕ) → elem p ps ≡ true → f p ≡ true) → filter f ps ≡ ps
unfolding filter elem
filter-all f [] h = refl
filter-all f (p ∷ ps) h =
    let here = h p (ground arith) in
    rw (here, filter) (ap (λ qs. p ∷ qs) (filter-all f ps (λ q e. h q (ground arith))))

pub filter-none :
    (f : ℕ → Bool) (ps : List ℕ) → ((p : ℕ) → elem p ps ≡ true → f p ≡ false) → filter f ps ≡ []
unfolding filter elem
filter-none f [] h = refl
filter-none f (p ∷ ps) h =
    let here = h p (ground arith) in
    rw (here, filter) (filter-none f ps (λ q e. h q (ground arith)))
