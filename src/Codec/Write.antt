-- ===== src/Codec/Write.antt =====
-- WriteRequest of gokit/transport/pool/rpc/timeout_codec.go: a request waits exactly if it was sent.
use jkfr.Prelude.{
  ℕ, suc, ◌+◌, ◌≡◌, refl, sym, ap, ◌∙◌, Bool, true, false, Option, none, some, List, [], ◌∷◌, ◌++◌,
  arith, ltb, ◌==◌, if◌then◌else◌, length, elem, remove, delete, lookup, lookup-delete,
  length-append, Bool-cases, inl, inr,
}
use jkfr.Codec.{TimeoutCodec, push_req, remove_req, set_deadline, write_request}
use jkfr.Codec.Sound.{Reach, codec_reached-IsSound}

remove-append : (x : ℕ) (xs : List ℕ) → elem x xs ≡ false → remove x (xs ++ x ∷ []) ≡ xs
unfolding remove elem
remove-append x [] e = ground arith
remove-append x (y ∷ xs) e = ground (arith, remove-append x xs)

abbrev pub requests : TimeoutCodec → List ℕ × List (ℕ × ℕ)
requests c = (c.li_rpc_req, c.seq2em)

pub set_deadline-requests :
    (now : ℕ) (c : TimeoutCodec) → requests (set_deadline now c) ≡ requests c
unfolding set_deadline
set_deadline-requests now c = elim (Bool-cases (ltb 0 (length c.li_rpc_req))) [
  | inl t ↦ rw (t, set_deadline) refl
  | inr t ↦ rw (t, set_deadline) refl
]

pub remove_req-some :
    (seq p : ℕ) (c : TimeoutCodec)
    → lookup seq c.seq2em ≡ some p
    → requests (remove_req seq c).0 ≡ (remove p c.li_rpc_req, delete seq c.seq2em)
unfolding remove_req
remove_req-some seq p c e = rw (e, remove_req) refl

-- What a failed write leaves.
abbrev pub IsUnsent : TimeoutCodec → TimeoutCodec → Type 0
IsUnsent c c' = (c'.li_rpc_req ≡ c.li_rpc_req) × ((s : ℕ) → lookup s c'.seq2em ≡ lookup s c.seq2em)

-- What a write that succeeds leaves.
abbrev pub IsSent : ℕ → ℕ → ℕ → ℕ → TimeoutCodec → TimeoutCodec → Type 0
IsSent pushed limited seq n c c' =
    (c'.li_rpc_req ≡ c.li_rpc_req ++ suc c.made ∷ [])
    × ((s : ℕ) → lookup s c'.seq2em ≡ (if seq == s then some (suc c.made) else lookup s c.seq2em))
    × (c'.store (suc c.made)
        ≡ record { seq = seq; service_method = n; req_time = pushed; timed_out = false })
    × (c'.read_deadline ≡ some (limited + c.read_timeout))
    × (c'.write_deadline ≡ some (limited + c.write_timeout))

write_request-IsUnsent :
    (now : ℕ → ℕ) (e seq n : ℕ) (c : TimeoutCodec)
    → lookup seq c.seq2em ≡ none
    → elem (suc c.made) c.li_rpc_req ≡ false
    → IsUnsent c (write_request now (some e) seq n c).0
unfolding write_request push_req
write_request-IsUnsent now e seq n c free unlisted = (
  ap (λ (r : List ℕ × List (ℕ × ℕ)). r.0) left ∙ remove-append (suc c.made) c.li_rpc_req unlisted,
  λ s. ap (λ (r : List ℕ × List (ℕ × ℕ)). lookup s r.1) left ∙ keys s,
)
  where
    c1 : TimeoutCodec
    c1 = push_req (now 0) seq n c

    limited : requests (set_deadline (now 1) c1) ≡ requests c1
    limited = set_deadline-requests (now 1) c1

    at : lookup seq (set_deadline (now 1) c1).seq2em ≡ some (suc c.made)
    at = ap (λ (r : List ℕ × List (ℕ × ℕ)). lookup seq r.1) limited ∙ ground arith

    left : requests (write_request now (some e) seq n c).0 ≡ (
      remove (suc c.made) (c.li_rpc_req ++ suc c.made ∷ []),
      delete seq ((seq, suc c.made) ∷ c.seq2em),
    )
    left =
        set_deadline-requests (now 2) (remove_req seq (set_deadline (now 1) c1)).0
        ∙ remove_req-some seq (suc c.made) (set_deadline (now 1) c1) at
        ∙ ap (λ (r : List ℕ × List (ℕ × ℕ)). (remove (suc c.made) r.0, delete seq r.1)) limited

    keys : (s : ℕ) → lookup s (delete seq ((seq, suc c.made) ∷ c.seq2em)) ≡ lookup s c.seq2em
    keys s = lookup-delete seq s ((seq, suc c.made) ∷ c.seq2em) ∙ by (seq == s) refl
      where
        by :
            (b : Bool)
            → (seq == s) ≡ b
            → (if b then none else if b then some (suc c.made) else lookup s c.seq2em)
              ≡ lookup s c.seq2em
        by true t =
            let seq≡s : seq ≡ s = ground arith in sym free ∙ ap (λ x. lookup x c.seq2em) seq≡s
        by false t = refl

write_request-IsSent :
    (now : ℕ → ℕ) (seq n : ℕ) (c : TimeoutCodec)
    → IsSent (now 0) (now 1) seq n c (write_request now none seq n c).0
unfolding write_request push_req set_deadline
write_request-IsSent now seq n c =
    let some_left : ltb 0 (length (c.li_rpc_req ++ suc c.made ∷ [])) ≡ true =
      ground (arith, length-append c.li_rpc_req (suc c.made ∷ [])) in
    rw (some_left) (refl, λ s. refl, ground arith, refl, refl)

-- After every history, WriteRequest of a request under a new number returns the error of the codec
-- inside. Without an error, the request is the last of the list, the map has it under its number and is
-- otherwise as before, and both deadlines are the timeouts from then. After an error, the list and the
-- map are as before the write.
pub write_request-all :
    (rt wt t : ℕ) (now : ℕ → ℕ) (sent : Option ℕ) (seq n : ℕ) (c : TimeoutCodec)
    → Reach rt wt t c
    → lookup seq c.seq2em ≡ none
    → ((write_request now sent seq n c).1 ≡ sent)
      × (sent ≡ none → IsSent (now 0) (now 1) seq n c (write_request now sent seq n c).0)
      × ((e : ℕ) → sent ≡ some e → IsUnsent c (write_request now sent seq n c).0)
unfolding write_request
write_request-all rt wt t now none seq n c r free =
    (refl, λ h. write_request-IsSent now seq n c, λ e h. cc)
write_request-all rt wt t now (some e) seq n c r free =
    let v = codec_reached-IsSound rt wt t c r in
    (
      refl,
      λ h. cc,
      λ e' h. write_request-IsUnsent now e seq n c free (ground (arith, v.fresh (suc c.made))),
    )
