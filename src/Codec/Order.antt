-- ===== src/Codec/Order.antt =====
-- The order of the waiting requests in gokit/transport/pool/rpc/timeout_codec.go: the list runs from
-- the oldest request to the newest.
use jkfr.Prelude.{
  ℕ, ◌≤◌, ◌≡◌, true, List, [], ◌∷◌, ◌++◌, arith, ◌==◌, if◌then◌else◌, elem, remove, Bool-cases, inl,
  inr, Bool, false, subst,
}

-- The times of the listed pointers do not fall, and lie between two bounds.
abbrev pub InOrder : (ℕ → ℕ) → ℕ → List ℕ → ℕ → Type 0
InOrder time lo [] hi = lo ≤ hi
InOrder time lo (p ∷ ps) hi = (lo ≤ time p) × InOrder time (time p) ps hi

pub InOrder-le : (time : ℕ → ℕ) (lo : ℕ) (ps : List ℕ) (hi : ℕ) → InOrder time lo ps hi → lo ≤ hi
InOrder-le time lo [] hi v = v
InOrder-le time lo (p ∷ ps) hi v = omega (arith, v.0, InOrder-le time (time p) ps hi v.1)

pub InOrder-elem :
    (time : ℕ → ℕ) (lo : ℕ) (ps : List ℕ) (hi q : ℕ)
    → InOrder time lo ps hi
    → elem q ps ≡ true
    → (lo ≤ time q) × (time q ≤ hi)
unfolding elem
InOrder-elem time lo [] hi q v e = cc
InOrder-elem time lo (p ∷ ps) hi q v e = elim (Bool-cases (p == q)) [
  | inl t ↦
      let p≡q : p ≡ q = ground arith in
      let high = InOrder-le time (time p) ps hi v.1 in
      subst (λ x. (lo ≤ time x) × (time x ≤ hi)) p≡q (v.0, high)
  | inr f ↦
      let (low, high) = InOrder-elem time (time p) ps hi q v.1 (ground arith) in
      (omega (arith, v.0, low), high)
]

pub InOrder-later :
    (time : ℕ → ℕ) (lo : ℕ) (ps : List ℕ) (hi hi' : ℕ)
    → hi ≤ hi'
    → InOrder time lo ps hi
    → InOrder time lo ps hi'
InOrder-later time lo [] hi hi' h v = omega (arith, v)
InOrder-later time lo (p ∷ ps) hi hi' h v = (v.0, InOrder-later time (time p) ps hi hi' h v.1)

pub InOrder-earlier :
    (time : ℕ → ℕ) (lo lo' : ℕ) (ps : List ℕ) (hi : ℕ)
    → lo' ≤ lo
    → InOrder time lo ps hi
    → InOrder time lo' ps hi
InOrder-earlier time lo lo' [] hi h v = omega (arith, v)
InOrder-earlier time lo lo' (p ∷ ps) hi h v = (omega (arith, v.0), v.1)

pub InOrder-same :
    (time time' : ℕ → ℕ) (lo : ℕ) (ps : List ℕ) (hi : ℕ)
    → ((p : ℕ) → elem p ps ≡ true → time' p ≡ time p)
    → InOrder time lo ps hi
    → InOrder time' lo ps hi
unfolding elem
InOrder-same time time' lo [] hi same v = v
InOrder-same time time' lo (p ∷ ps) hi same v =
    let here : time' p ≡ time p = same p (ground arith) in
    (
      omega (arith, v.0, here),
      InOrder-earlier time' (time p) (time' p) ps hi (omega (arith, here))
          (InOrder-same time time' (time p) ps hi (λ q e. same q (ground arith)) v.1),
    )

pub append-InOrder :
    (time : ℕ → ℕ) (lo : ℕ) (ps : List ℕ) (hi n : ℕ)
    → time n ≡ hi
    → InOrder time lo ps hi
    → InOrder time lo (ps ++ n ∷ []) hi
append-InOrder time lo [] hi n e v = (omega (arith, e, v), omega (arith, e))
append-InOrder time lo (p ∷ ps) hi n e v = (v.0, append-InOrder time (time p) ps hi n e v.1)

pub remove-InOrder :
    (time : ℕ → ℕ) (lo : ℕ) (ps : List ℕ) (hi q : ℕ)
    → InOrder time lo ps hi
    → InOrder time lo (remove q ps) hi
unfolding remove
remove-InOrder time lo [] hi q v = v
remove-InOrder time lo (p ∷ ps) hi q v = by (p == q) (remove-InOrder time (time p) ps hi q v.1)
  where
    by :
        (b : Bool)
        → InOrder time (time p) (remove q ps) hi
        → InOrder time lo (if b then remove q ps else p ∷ remove q ps) hi
    by true rest = InOrder-earlier time (time p) lo (remove q ps) hi v.0 rest
    by false rest = (v.0, rest)
