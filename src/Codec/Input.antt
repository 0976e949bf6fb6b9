-- ===== src/Codec/Input.antt =====
-- The loop of net/rpc that reads responses, over the codec of
-- gokit/transport/pool/rpc/timeout_codec.go: every request that has waited too long is answered.
use jkfr.Prelude.{
  ℕ, zero, suc, ◌<◌, ◌≡◌, refl, sym, ap, ◌∙◌, Bool, true, false, not, none, some, List, [], ◌∷◌,
  map, arith, if◌then◌else◌, length, elem, filter, filter-all, filter-none, lookup, Bool-cases, inl,
  inr, subst,
}
use mathlib.Core.Path.{ap₂}
use jkfr.Codec.{
  TimeoutCodec, RpcReq, is_timeout, with_timeout, Inner, header, header_error, Header,
  timeout_header, inner_header, keep_seq, set_deadline, read_response_header, BodyRead, skipped,
  read_response_body,
}
use jkfr.Codec.Sound.{
  IsSound, Reach, codec_reached-IsSound, seq_of, time_of, with_timeout-same, with_timeout-IsSound,
  same-IsSound, remove_req-IsSound,
}
use jkfr.Codec.Order.{InOrder, InOrder-elem}
use jkfr.Codec.Timeouts.{not_timeout}
use jkfr.Codec.Write.{set_deadline-requests}
use jkfr.Codec.Round.{
  asked, answered, get_timeout_req-none, header-timeout, header-inner, body-skipped,
  get_timeout_req-answered, remove_req-kept, first_held,
}

abbrev pub after_body :
    (TimeoutCodec → TimeoutCodec × List (ℕ × BodyRead))
    → ℕ
    → TimeoutCodec × BodyRead
    → TimeoutCodec × List (ℕ × BodyRead)
after_body rest seq (c, body) = let (d, answers) = rest c in (d, (seq, body) ∷ answers)

abbrev pub after_header :
    (TimeoutCodec → TimeoutCodec × List (ℕ × BodyRead))
    → ℕ
    → TimeoutCodec × Header
    → TimeoutCodec × List (ℕ × BodyRead)
after_header rest now (c, timeout_header seq n) =
    after_body rest seq (read_response_body now true none c)
after_header rest now (c, inner_header r) = (c, [])

-- net/rpc reads a header and, if it tells of an error, the body into nil; and so on. `answer_timeouts`
-- stops at a header that the codec inside is asked for, with the numbers that were answered before.
unfoldable pub answer_timeouts : ℕ → ℕ → Inner → TimeoutCodec → TimeoutCodec × List (ℕ × BodyRead)
answer_timeouts zero now inner c = (c, [])
answer_timeouts (suc fuel) now inner c =
    after_header (answer_timeouts fuel now inner) now (read_response_header (λ k. now) inner c)

module _ (now : ℕ) (inner : Inner) (seqs : ℕ → ℕ) (late : ℕ → Bool) where
  -- The numbers and the lateness of the requests are known in advance, and do not change.
  abbrev IsKnown : TimeoutCodec → Type 0
  IsKnown c = (p : ℕ) → (seq_of c p ≡ seqs p) × (is_timeout now c p ≡ late p)

  answered-IsKnown : (c : TimeoutCodec) (p : ℕ) → IsKnown c → IsKnown (answered c p)
  answered-IsKnown c p known q =
      let (store, timeout) = remove_req-kept (asked c p).header_seq (asked c p) in
      let (seq, time) = with_timeout-same c p q in
      (
        ap (λ (st : ℕ → RpcReq). (st q).seq) store ∙ seq ∙ (known q).0,
        ground (arith, ap (λ (st : ℕ → RpcReq). (st q).req_time) store, timeout, time, (known q).1),
      )

  Answers : List ℕ → TimeoutCodec × List (ℕ × BodyRead) → Type 0
  Answers ps (c, answers) =
      (answers ≡ map (λ p. (seqs p, skipped)) (filter late ps))
      × (c.li_rpc_req ≡ filter (λ p. not (late p)) ps)

  none_left :
      (fuel : ℕ) (ps : List ℕ) (c : TimeoutCodec)
      → c.li_rpc_req ≡ ps
      → ((p : ℕ) → elem p ps ≡ true → late p ≡ false)
      → IsKnown c
      → Answers ps (answer_timeouts (suc fuel) now inner c)
  unfolding Answers answer_timeouts
  none_left fuel ps c at soon known =
      let none_late =
        get_timeout_req-none now c (λ p e. (known p).1 ∙ soon p (sym (ap (elem p) at) ∙ e)) in
      subst
        (λ (r : TimeoutCodec × Header).
          Answers ps (after_header (answer_timeouts fuel now inner) now r))
        (sym (header-inner now inner c none_late))
        (
          ap (map (λ p. (seqs p, skipped))) (sym (filter-none late ps soon)),
          kept inner ∙ at ∙ sym (filter-all (λ p. not (late p)) ps (λ p e. ap not (soon p e))),
        )
    where
      limited : (set_deadline now c).li_rpc_req ≡ c.li_rpc_req
      limited = ap (λ (r : List ℕ × List (ℕ × ℕ)). r.0) (set_deadline-requests now c)

      kept : (i : Inner) → (keep_seq i (set_deadline now c)).li_rpc_req ≡ c.li_rpc_req
      kept (header seq) = limited
      kept (header_error e) = limited

  one_left :
      (fuel p : ℕ) (ps : List ℕ) (c : TimeoutCodec)
      → c.li_rpc_req ≡ p ∷ ps
      → late p ≡ true
      → IsSound now c
      → IsKnown c
      → Answers ps (answer_timeouts fuel now inner (answered c p))
      → Answers (p ∷ ps) (answer_timeouts (suc fuel) now inner c)
  unfolding Answers answer_timeouts filter elem
  one_left fuel p ps c at is_late v known rest =
      let (n, header_read) = header-timeout now inner c p ps at ((known p).1 ∙ is_late) in
      let body_read = body-skipped now c p held in
      let rounds =
        ap (after_header (answer_timeouts fuel now inner) now) header_read
        ∙ ap (after_body (answer_timeouts fuel now inner) (asked c p).header_seq) body_read in
      subst (Answers (p ∷ ps)) (sym rounds) (
        ap₂ (λ a rs. (a, skipped) ∷ rs) seq rest.0
            ∙ sym (
                ap (map (λ q. (seqs q, skipped)))
                  (ap (λ b. if b then p ∷ filter late ps else filter late ps) is_late)),
        rest.1
            ∙ sym (
                ap
                  (λ b.
                    if not b
                    then p ∷ filter (λ q. not (late q)) ps
                    else filter (λ q. not (late q)) ps)
                  is_late),
      )
    where
      seq : (asked c p).header_seq ≡ seqs p
      seq = (with_timeout-same c p p).0 ∙ (known p).0

      held : lookup (asked c p).header_seq c.seq2em ≡ some p
      held = first_held now p ps c at v

  answers :
      (fuel : ℕ) (ps : List ℕ) (c : TimeoutCodec)
      → length ps < fuel
      → c.li_rpc_req ≡ ps
      → IsSound now c
      → IsKnown c
      → Answers ps (answer_timeouts fuel now inner c)
  unfolding elem
  answers zero ps c enough at v known = elim enough [ ]
  answers (suc fuel) [] c enough at v known = none_left fuel [] c at (λ p e. cc) known
  answers (suc fuel) (p ∷ ps) c enough at v known = elim (Bool-cases (late p)) [
    | inl t ↦ one_left fuel p ps c at t v known (
        answers fuel ps (answered c p) (omega (arith, enough))
          (get_timeout_req-answered c p ps at v.index.once held)
          (remove_req-IsSound now (asked c p).header_seq (asked c p) (
            same-IsSound now (with_timeout c p) (asked c p).header_seq c.is_reading_body
              c.read_deadline c.write_deadline (with_timeout-IsSound now c p v)))
          (answered-IsKnown c p known))
    | inr f ↦ none_left fuel (p ∷ ps) c at (soon f) known
  ]
    where
      held : lookup (asked c p).header_seq c.seq2em ≡ some p
      held = first_held now p ps c at v

      soon : late p ≡ false → (q : ℕ) → elem q (p ∷ ps) ≡ true → late q ≡ false
      soon f q e =
          let ordered = subst (λ qs. InOrder (time_of c) 0 qs now) at v.ordered in
          let first =
            InOrder-elem (time_of c) (time_of c p) (p ∷ ps) now q (omega arith, ordered.1) e in
          sym (known q).1 ∙ not_timeout now c p q first.0 ((known p).1 ∙ f)

-- After every history, the loop of net/rpc that reads responses answers, before it waits for the codec
-- inside and without reading a body from it, exactly the requests that have waited longer than the
-- timeout, each once and the oldest first, and leaves the others waiting in their order. It needs at
-- most as many rounds as there are requests, and one to find no other.
pub answer_timeouts-all :
    (rt wt now : ℕ) (inner : Inner) (fuel : ℕ) (c : TimeoutCodec)
    → Reach rt wt now c
    → length c.li_rpc_req < fuel
    → let (d, answers) = answer_timeouts fuel now inner c in
      (answers ≡ map (λ p. (seq_of c p, skipped)) (filter (is_timeout now c) c.li_rpc_req))
      × (d.li_rpc_req ≡ filter (λ p. not (is_timeout now c p)) c.li_rpc_req)
unfolding Answers
answer_timeouts-all rt wt now inner fuel c r enough =
    answers now inner (seq_of c) (is_timeout now c) fuel c.li_rpc_req c enough refl
      (codec_reached-IsSound rt wt now c r) (λ p. (refl, refl))
