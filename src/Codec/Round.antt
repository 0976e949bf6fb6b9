-- ===== src/Codec/Round.antt =====
-- The rounds in which the codec of gokit/transport/pool/rpc/timeout_codec.go answers a request itself.
use jkfr.Prelude.{
  ℕ, ◌≡◌, refl, ap, ◌∙◌, true, false, Option, none, some, List, [], ◌∷◌, arith, if◌then◌else◌, elem,
  remove, remove-absent, lookup, Option-cases, inl, inr, subst, NoDup,
}
use jkfr.Codec.{
  TimeoutCodec, is_timeout, with_timeout, timeout_front, get_timeout_req, remove_req,
  get_timeout_request, timeout_answer, or_inner, Inner, timeout_header, inner_header, keep_seq,
  set_deadline, read_response_header, skipped, read_response_body,
}
use jkfr.Codec.Sound.{IsSound, with_timeout-same}
use jkfr.Codec.Write.{remove_req-some}

-- What a round leaves that answers the request `p` with a timeout.
abbrev pub asked : TimeoutCodec → ℕ → TimeoutCodec
asked c p = record (with_timeout c p) { header_seq = ((with_timeout c p).store p).seq }

abbrev pub answered : TimeoutCodec → ℕ → TimeoutCodec
answered c p = (remove_req (asked c p).header_seq (asked c p)).0

pub get_timeout_req-late :
    (now : ℕ) (c : TimeoutCodec) (p : ℕ) (ps : List ℕ)
    → c.li_rpc_req ≡ p ∷ ps
    → is_timeout now c p ≡ true
    → get_timeout_req now c ≡ (with_timeout c p, some p)
unfolding get_timeout_req
get_timeout_req-late now c p ps at late =
    ap (λ qs. timeout_front now c qs) at
    ∙ ap (λ b. if◌then◌else◌ {A = TimeoutCodec × Option ℕ} b (with_timeout c p, some p) (c, none))
        late

pub get_timeout_req-none :
    (now : ℕ) (c : TimeoutCodec)
    → ((p : ℕ) → elem p c.li_rpc_req ≡ true → is_timeout now c p ≡ false)
    → get_timeout_req now c ≡ (c, none)
unfolding get_timeout_req elem
get_timeout_req-none now c soon = front c.li_rpc_req soon
  where
    front :
        (ps : List ℕ)
        → ((p : ℕ) → elem p ps ≡ true → is_timeout now c p ≡ false)
        → timeout_front now c ps ≡ (c, none)
    front [] h = refl
    front (p ∷ ps) h =
        ap (λ b. if◌then◌else◌ {A = TimeoutCodec × Option ℕ} b (with_timeout c p, some p) (c, none))
          (h p (ground arith))

pub header-timeout :
    (now : ℕ) (inner : Inner) (c : TimeoutCodec) (p : ℕ) (ps : List ℕ)
    → c.li_rpc_req ≡ p ∷ ps
    → is_timeout now c p ≡ true
    → (n : ℕ) × (read_response_header (λ k. now) inner c
        ≡ (asked c p, timeout_header (asked c p).header_seq n))
unfolding read_response_header get_timeout_request
header-timeout now inner c p ps at late =
    let found = get_timeout_req-late now c p ps at late in
    (
      ((with_timeout c p).store p).service_method,
      ap (λ r. or_inner now inner (timeout_answer r)) found,
    )

pub header-inner :
    (now : ℕ) (inner : Inner) (c : TimeoutCodec)
    → get_timeout_req now c ≡ (c, none)
    → read_response_header (λ k. now) inner c
      ≡ (keep_seq inner (set_deadline now c), inner_header inner)
unfolding read_response_header get_timeout_request
header-inner now inner c none_late = ap (λ r. or_inner now inner (timeout_answer r)) none_late

-- The body of a request that the codec answers itself is not read.
pub body-skipped :
    (now : ℕ) (c : TimeoutCodec) (p : ℕ)
    → lookup (asked c p).header_seq c.seq2em ≡ some p
    → read_response_body now true none (asked c p) ≡ (answered c p, skipped)
unfolding read_response_body remove_req
body-skipped now c p at = rw (at, read_response_body, remove_req) (ground arith)

pub get_timeout_req-answered :
    (c : TimeoutCodec) (p : ℕ) (ps : List ℕ)
    → c.li_rpc_req ≡ p ∷ ps
    → NoDup c.li_rpc_req
    → lookup (asked c p).header_seq c.seq2em ≡ some p
    → (answered c p).li_rpc_req ≡ ps
unfolding remove
get_timeout_req-answered c p ps at once held =
    ap (λ (r : List ℕ × List (ℕ × ℕ)). r.0)
      (remove_req-some (asked c p).header_seq p (asked c p) held)
    ∙ ap (remove p) at
    ∙ here (subst NoDup at once)
  where
    here : NoDup (p ∷ ps) → remove p (p ∷ ps) ≡ ps
    here (absent, rest) = ground (arith, remove-absent p ps absent)

-- Removing a request leaves the store and the timeouts.
pub remove_req-kept :
    (seq : ℕ) (c : TimeoutCodec)
    → ((remove_req seq c).0.store ≡ c.store) × ((remove_req seq c).0.read_timeout ≡ c.read_timeout)
unfolding remove_req
remove_req-kept seq c = elim (Option-cases (lookup seq c.seq2em)) [
  | inl e ↦ rw (e, remove_req) (refl, refl)
  | inr (p, e) ↦ rw (e, remove_req) (refl, refl)
]

pub first_held :
    (now p : ℕ) (ps : List ℕ) (c : TimeoutCodec)
    → c.li_rpc_req ≡ p ∷ ps
    → IsSound now c
    → lookup (asked c p).header_seq c.seq2em ≡ some p
unfolding elem
first_held now p ps c at v =
    ap (λ a. lookup a c.seq2em) (with_timeout-same c p p).0
    ∙ v.index.listed p (ap (elem p) at ∙ ground arith)
