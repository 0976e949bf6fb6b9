-- ===== src/Collector/Keys.antt =====
-- What MarshalKey of prometheus/utils/utils.go tells apart.
use jkfr.Prelude.{◌≡◌, refl, sym, ap, ◌∙◌, true, false, List, [], ◌∷◌, arith, Bool-cases, inl, inr}
use native.Mathlib.Nat.{ℕ_set}
use mathlib.Core.Path.{ap₂}
use mathlib.Core.List.{Perm, Permᴰ, is_set}
use mathlib.Core.List.Perm
use mathlib.Core.Logic.{∥∥₁_elim}
use jkfr.HostAddr.{Text}
use jkfr.Collector.{text_le, insert_text, sort_texts, join, marshal_key}

text_le-total : (x y : Text) → text_le x y ≡ false → text_le y x ≡ true
unfolding text_le
text_le-total [] y e = cc
text_le-total (a ∷ x) [] e = refl
text_le-total (a ∷ x) (b ∷ y) e = ground (arith, text_le-total x y)

text_le-antisym : (x y : Text) → text_le x y ≡ true → text_le y x ≡ true → x ≡ y
unfolding text_le
text_le-antisym [] [] e f = refl
text_le-antisym [] (b ∷ y) e f = cc
text_le-antisym (a ∷ x) [] e f = cc
text_le-antisym (a ∷ x) (b ∷ y) e f = ground (arith, text_le-antisym x y)

text_le_trans : (x y z : Text) → text_le x y ≡ true → text_le y z ≡ true → text_le x z ≡ true
unfolding text_le
text_le_trans [] y z e f = refl
text_le_trans (a ∷ x) [] z e f = cc
text_le_trans (a ∷ x) (b ∷ y) [] e f = cc
text_le_trans (a ∷ x) (b ∷ y) (c ∷ z) e f = ground (arith, text_le_trans x y z)

insert_first :
    (x y : Text) (ys : List Text) → text_le x y ≡ true → insert_text x (y ∷ ys) ≡ x ∷ y ∷ ys
unfolding insert_text
insert_first x y ys e = rw (e, insert_text) refl

insert_later :
    (x y : Text) (ys : List Text)
    → text_le x y ≡ false
    → insert_text x (y ∷ ys) ≡ y ∷ insert_text x ys
unfolding insert_text
insert_later x y ys e = rw (e, insert_text) refl

-- Two texts that both go before the rest.
insert_both :
    (x y : Text) (zs : List Text)
    → insert_text x (y ∷ zs) ≡ x ∷ y ∷ zs
    → insert_text y (x ∷ zs) ≡ y ∷ x ∷ zs
    → x ≡ y
    → insert_text x (y ∷ zs) ≡ insert_text y (x ∷ zs)
insert_both x y zs e f same = cc

-- Inserting before a list that both texts go before.
insert_pair :
    (x y : Text) (zs : List Text)
    → insert_text x zs ≡ x ∷ zs
    → insert_text y zs ≡ y ∷ zs
    → insert_text x (y ∷ zs) ≡ insert_text y (x ∷ zs)
insert_pair x y zs ex ey = elim (Bool-cases (text_le x y)) [
  | inl p ↦ elim (Bool-cases (text_le y x)) [
    | inl q ↦
        let same = text_le-antisym x y p q in
        insert_both x y zs (insert_first x y zs p) (insert_first y x zs q) same
    | inr q ↦ insert_first x y zs p ∙ ap (λ t. x ∷ t) (sym ey) ∙ sym (insert_later y x zs q)
  ]
  | inr p ↦
      let q = text_le-total x y p in
      insert_later x y zs p ∙ ap (λ t. y ∷ t) ex ∙ sym (insert_first y x zs q)
]

-- `x` goes before the list and `y` later.
insert_apart :
    (x y z : Text) (zs : List Text)
    → text_le x z ≡ true
    → text_le y z ≡ false
    → insert_text x (insert_text y (z ∷ zs)) ≡ insert_text y (insert_text x (z ∷ zs))
insert_apart x y z zs p q =
    let far : text_le y x ≡ false = elim (Bool-cases (text_le y x)) [
      | inl r ↦ let s = text_le_trans y x z r p in cc
      | inr r ↦ r
    ] in
    ap (insert_text x) (insert_later y z zs q)
    ∙ insert_first x z (insert_text y zs) p
    ∙ ap (λ t. x ∷ t) (sym (insert_later y z zs q))
    ∙ sym (insert_later y x (z ∷ zs) far)
    ∙ ap (insert_text y) (sym (insert_first x z zs p))

insert_text_comm :
    (x y : Text) (zs : List Text)
    → insert_text x (insert_text y zs) ≡ insert_text y (insert_text x zs)
unfolding insert_text
insert_text_comm x y [] = insert_pair x y [] refl refl
insert_text_comm x y (z ∷ zs) = elim (Bool-cases (text_le x z)) [
  | inl p ↦ elim (Bool-cases (text_le y z)) [
    | inl q ↦
        ap (insert_text x) (insert_first y z zs q)
        ∙ insert_pair x y (z ∷ zs) (insert_first x z zs p) (insert_first y z zs q)
        ∙ ap (insert_text y) (sym (insert_first x z zs p))
    | inr q ↦ insert_apart x y z zs p q
  ]
  | inr p ↦ elim (Bool-cases (text_le y z)) [
    | inl q ↦ sym (insert_apart y x z zs q p)
    | inr q ↦
        ap (insert_text x) (insert_later y z zs q)
        ∙ insert_later x z (insert_text y zs) p
        ∙ ap (λ t. z ∷ t) (insert_text_comm x y zs)
        ∙ sym (insert_later y z (insert_text x zs) q)
        ∙ ap (insert_text y) (sym (insert_later x z zs p))
  ]
]

sort_texts-Permᴰ : {xs ys : List Text} → Permᴰ xs ys → sort_texts xs ≡ sort_texts ys
unfolding sort_texts
sort_texts-Permᴰ Permᴰ.nil = refl
sort_texts-Permᴰ (Permᴰ.cons e d) = ap₂ insert_text e (sort_texts-Permᴰ d)
sort_texts-Permᴰ (Permᴰ.swap {a = a} {b = b} {l = l} e f) =
    insert_text_comm a b (sort_texts l)
    ∙ ap₂ (λ x y. insert_text x (insert_text y (sort_texts l))) f e
sort_texts-Permᴰ (Permᴰ.trans d e) = sort_texts-Permᴰ d ∙ sort_texts-Permᴰ e

sort_texts-Perm : {xs ys : List Text} → Perm xs ys → sort_texts xs ≡ sort_texts ys
sort_texts-Perm p = ∥∥₁_elim p (is_set (is_set ℕ_set) _ _) sort_texts-Permᴰ

-- MarshalKey gives the labels of a collector one key in whichever order the map of the labels is ranged
-- over; and it does not tell the name from the labels: a collector whose name is a label of another has
-- the key of that other, if the other's name is among its labels instead.
pub marshal_key-Perm :
    (name label : Text) (labels labels' : List Text)
    → Perm labels labels'
    → (marshal_key name labels ≡ marshal_key name labels')
      × (marshal_key name (label ∷ labels) ≡ marshal_key label (name ∷ labels'))
unfolding marshal_key
marshal_key-Perm name label labels labels' p = (
  ap join (sort_texts-Perm (Perm.cons name p)),
  ap join (
      sort_texts-Perm
        (Perm.trans (Perm.swap label name labels) (Perm.cons label (Perm.cons name p)))),
)
