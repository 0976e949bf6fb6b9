-- ===== src/Prelude/Maps.antt =====
-- Go maps from numbers to pointers, as association lists, and a map that indexes a list by a key.
use Prim.Native.Nat.{ℕ}
use mathlib.Core.Path.{◌≡◌, refl, sym, ap, ◌∙◌}
use mathlib.Core.Bool.{Bool, true, false}
use mathlib.Core.List.{List, [], ◌∷◌, ◌++◌}
use mathlib.Core.Option.{Option, none, some}
use native.Mathlib.Omega.{arith}
use jkfr.Prelude.Tests.{◌==◌, if◌then◌else◌}
use jkfr.Prelude.Sets.{elem, elem-append, NoDup, append-NoDup}

abbrev pub lookup : ℕ → List (ℕ × ℕ) → Option ℕ
lookup a [] = none
lookup a ((b, p) ∷ m) = if b == a then some p else lookup a m

unfoldable pub delete : ℕ → List (ℕ × ℕ) → List (ℕ × ℕ)
delete a [] = []
delete a ((b, p) ∷ m) = if b == a then delete a m else (b, p) ∷ delete a m

pub lookup-delete :
    (a b : ℕ) (m : List (ℕ × ℕ)) → lookup b (delete a m) ≡ (if a == b then none else lookup b m)
unfolding delete
lookup-delete a b [] = ground arith
lookup-delete a b ((c, p) ∷ m) = ground (arith, lookup-delete a b m)

-- The map takes the key of each listed pointer to that pointer, and has no other keys.
pub record IsIndex (key : ℕ → ℕ) (m : List (ℕ × ℕ)) (ps : List ℕ) : Type 0 where
  pub listed : (p : ℕ) → elem p ps ≡ true → lookup (key p) m ≡ some p
  pub mapped : (a p : ℕ) → lookup a m ≡ some p → (elem p ps ≡ true) × (key p ≡ a)
  pub once : NoDup ps

-- Keys that change outside the list do not matter.
pub IsIndex-key :
    (key key' : ℕ → ℕ) (m : List (ℕ × ℕ)) (ps : List ℕ)
    → ((p : ℕ) → elem p ps ≡ true → key' p ≡ key p)
    → IsIndex key m ps
    → IsIndex key' m ps
IsIndex-key key key' m ps same v = record {
  listed = λ p e. ap (λ a. lookup a m) (same p e) ∙ v.listed p e;
  mapped = λ a p e. let (held, at) = v.mapped a p e in (held, same p held ∙ at);
  once = v.once;
}

-- A new pointer under a new key.
pub append-IsIndex :
    (key : ℕ → ℕ) (m : List (ℕ × ℕ)) (ps : List ℕ) (p a : ℕ)
    → elem p ps ≡ false
    → lookup a m ≡ none
    → key p ≡ a
    → IsIndex key m ps
    → IsIndex key ((a, p) ∷ m) (ps ++ p ∷ [])
unfolding elem
append-IsIndex key m ps p a unlisted free at v = record {
  listed = λ q e. list q (p == q) refl e;
  mapped = λ b q e. maps b q (a == b) refl e;
  once = append-NoDup ps p v.once unlisted;
}
  where
    clash : {q : ℕ} → some q ≡ none → ⊥
    clash e = cc

    distinct :
        (q : ℕ)
        → elem q ps ≡ true
        → (b : Bool) → (a == key q) ≡ b
        → (if b then some p else lookup (key q) m) ≡ some q
    distinct q old false t = v.listed q old
    distinct q old true t =
        let here : a ≡ key q = ground arith in
        absurd (clash (sym (v.listed q old) ∙ ap (λ b. lookup b m) (sym here) ∙ free))

    list :
        (q : ℕ) (b : Bool)
        → (p == q) ≡ b
        → elem q (ps ++ p ∷ []) ≡ true
        → (if a == key q then some p else lookup (key q) m) ≡ some q
    list q true t e =
        let p≡q : p ≡ q = ground arith in
        let same : a ≡ key q = sym at ∙ ap key p≡q in ground (arith, same, p≡q)
    list q false t e =
        let old : elem q ps ≡ true = ground (arith, elem-append q ps (p ∷ [])) in
        distinct q old (a == key q) refl

    maps :
        (b q : ℕ) (t : Bool)
        → (a == b) ≡ t
        → (if t then some p else lookup b m) ≡ some q
        → (elem q (ps ++ p ∷ []) ≡ true) × (key q ≡ b)
    maps b q true t e =
        let p≡q : p ≡ q = cc in
        let a≡b : a ≡ b = ground arith in
        (ground (arith, elem-append q ps (p ∷ []), p≡q), sym (ap key p≡q) ∙ at ∙ a≡b)
    maps b q false t e =
        let (old, here) = v.mapped b q e in (ground (arith, elem-append q ps (p ∷ [])), here)

-- A pointer leaves the list, and its key the map.
pub delete-IsIndex :
    (key : ℕ → ℕ) (m : List (ℕ × ℕ)) (ps ps' : List ℕ) (p : ℕ)
    → elem p ps ≡ true
    → ((q : ℕ) → elem q ps' ≡ (if p == q then false else elem q ps))
    → NoDup ps'
    → IsIndex key m ps
    → IsIndex key (delete (key p) m) ps'
delete-IsIndex key m ps ps' p held left once v = record {
  listed = λ q e.
      let old = stays q e in
      lookup-delete (key p) (key q) m ∙ other q old.1 (v.listed q old.0) (key p == key q) refl;
  mapped = λ a q e. maps a q (key p == a) refl (sym (lookup-delete (key p) a m) ∙ e);
  once = once;
}
  where
    stays : (q : ℕ) → elem q ps' ≡ true → (elem q ps ≡ true) × ((p == q) ≡ false)
    stays q e = (ground (arith, left q), ground (arith, left q))

    other :
        (q : ℕ)
        → (p == q) ≡ false
        → lookup (key q) m ≡ some q
        → (b : Bool) → (key p == key q) ≡ b
        → (if b then none else lookup (key q) m) ≡ some q
    other q far l false t = l
    other q far l true t =
        let same : key p ≡ key q = ground arith in
        let both : some p ≡ some q = sym (v.listed p held) ∙ ap (λ b. lookup b m) same ∙ l in
        let p≡q : p ≡ q = cc in ground (arith, p≡q)

    remains :
        (q a : ℕ)
        → elem q ps ≡ true
        → key q ≡ a
        → (key p == a) ≡ false
        → (b : Bool) → (p == q) ≡ b
        → elem q ps' ≡ true
    remains q a old here far false u = ground (arith, left q)
    remains q a old here far true u = let p≡q : p ≡ q = ground arith in ground (arith, ap key p≡q)

    maps :
        (a q : ℕ) (b : Bool)
        → (key p == a) ≡ b
        → (if b then none else lookup a m) ≡ some q
        → (elem q ps' ≡ true) × (key q ≡ a)
    maps a q true t e = cc
    maps a q false t e =
        let (old, here) = v.mapped a q e in (remains q a old here t (p == q) refl, here)
