-- ===== src/Codec/Timeouts.antt =====
-- Looking for a request that has waited too long in gokit/transport/pool/rpc/timeout_codec.go: the
-- front of the list stands for all of it.
use jkfr.Prelude.{
  ℕ, ◌≤◌, ◌≡◌, refl, sym, ap, ◌∙◌, Bool, true, false, Option, none, some, List, [], ◌∷◌, arith,
  ◌==◌, if◌then◌else◌, elem, Bool-cases, inl, inr,
}
use jkfr.Codec.{TimeoutCodec, is_timeout, with_timeout, timeout_front, get_timeout_req}
use jkfr.Codec.Sound.{IsSound, Reach, codec_reached-IsSound, time_of}
use jkfr.Codec.Order.{InOrder}

-- The reference: a search of the whole list for the first request that has waited too long.
unfoldable pub first_timeout : ℕ → TimeoutCodec → List ℕ → Option ℕ
first_timeout now c [] = none
first_timeout now c (p ∷ ps) = if is_timeout now c p then some p else first_timeout now c ps

pub not_timeout :
    (now : ℕ) (c : TimeoutCodec) (p q : ℕ)
    → time_of c p ≤ time_of c q
    → is_timeout now c p ≡ false
    → is_timeout now c q ≡ false
not_timeout now c p q h e = ground arith

pub first_timeout-none :
    (now : ℕ) (c : TimeoutCodec) (p : ℕ) (ps : List ℕ) (hi : ℕ)
    → is_timeout now c p ≡ false
    → InOrder (time_of c) (time_of c p) ps hi
    → first_timeout now c ps ≡ none
unfolding first_timeout
first_timeout-none now c p [] hi e v = refl
first_timeout-none now c p (q ∷ ps) hi e v =
    let later = not_timeout now c p q v.0 e in
    rw (later, first_timeout) (first_timeout-none now c q ps hi later v.1)

timeout_front-first :
    (now : ℕ) (c : TimeoutCodec) (ps : List ℕ) (hi : ℕ)
    → InOrder (time_of c) 0 ps hi
    → (timeout_front now c ps).1 ≡ first_timeout now c ps
unfolding first_timeout
timeout_front-first now c [] hi v = refl
timeout_front-first now c (p ∷ ps) hi v = by (is_timeout now c p) refl
  where
    by :
        (b : Bool)
        → is_timeout now c p ≡ b
        → (if◌then◌else◌ {A = TimeoutCodec × Option ℕ} b (with_timeout c p, some p) (c, none)).1
          ≡ (if b then some p else first_timeout now c ps)
    by true e = refl
    by false e = sym (first_timeout-none now c p ps hi e v.1)

pub get_timeout_req_sound :
    (now : ℕ) (c : TimeoutCodec)
    → IsSound now c
    → (get_timeout_req now c).1 ≡ first_timeout now c c.li_rpc_req
unfolding get_timeout_req
get_timeout_req_sound now c v = timeout_front-first now c c.li_rpc_req now v.ordered

-- After every history, getTimeoutReq, which looks at the front of the list alone, returns what a search
-- of the whole list for the first request that has waited longer than the timeout returns; so it returns
-- nil only if no request has waited too long.
pub get_timeout_req-first :
    (rt wt now : ℕ) (c : TimeoutCodec)
    → Reach rt wt now c
    → ((get_timeout_req now c).1 ≡ first_timeout now c c.li_rpc_req)
      × ((get_timeout_req now c).1 ≡ none
          → (p : ℕ) → elem p c.li_rpc_req ≡ true
          → is_timeout now c p ≡ false)
unfolding first_timeout elem
get_timeout_req-first rt wt now c r =
    let v = codec_reached-IsSound rt wt now c r in
    let same = get_timeout_req_sound now c v in (same, λ e. all c.li_rpc_req (sym same ∙ e))
  where
    all :
        (ps : List ℕ)
        → first_timeout now c ps ≡ none
        → (p : ℕ) → elem p ps ≡ true
        → is_timeout now c p ≡ false
    all [] e p m = cc
    all (q ∷ ps) e p m = elim (Bool-cases (q == p)) [
      | inl t ↦ let q≡p : q ≡ p = ground arith in sym (ap (is_timeout now c) q≡p) ∙ ground arith
      | inr t ↦ ground (arith, all ps (ground arith) p (ground arith))
    ]
