-- ===== src/Codec/Waiting.antt =====
-- What the codec of gokit/transport/pool/rpc/timeout_codec.go promises, without its list and pointers:
-- the numbers of the requests that wait, with the time of each.
use jkfr.Prelude.{
  ℕ, suc, ◌≡◌, refl, sym, ap, ◌∙◌, Bool, true, false, Option, none, some, arith, ltb, ◌==◌,
  if◌then◌else◌, length, lookup, lookup-delete, delete, Bool-cases, Option-cases, inl, inr,
}
use mathlib.Core.Path.{fun_ext}
use jkfr.Codec.{TimeoutCodec, push_req, with_timeout, remove_req, set_deadline}
use jkfr.Codec.Sound.{
  IsSound, Step, pushes, removes, searches, limits, keeps_seq, limits_read, marks_reading, Reach,
  codec_reached-IsSound, time_of, with_timeout-same, get_timeout_req-kept,
}

abbrev pub Waiting : Type 0
Waiting = ℕ → Option ℕ

-- The requests of a codec.
abbrev pub time_at : (ℕ → ℕ) → Option ℕ → Option ℕ
time_at time none = none
time_at time (some p) = some (time p)

abbrev pub waiting : TimeoutCodec → Waiting
waiting c seq = time_at (time_of c) (lookup seq c.seq2em)

abbrev pub started : ℕ → ℕ → Waiting → Waiting
started seq now w s = if seq == s then some now else w s

abbrev pub stopped : ℕ → Waiting → Waiting
stopped seq w s = if seq == s then none else w s

-- What each step does to the requests that wait: pushReq starts one under a number under which none
-- waits, removeReq stops the one with its number, and the other steps leave all.
abbrev pub Change : {now : ℕ} {c c' : TimeoutCodec} → Step now c c' → Type 0
Change {now} {c} {c'} (pushes seq n _ free) =
    (waiting c seq ≡ none) × (waiting c' ≡ started seq now (waiting c))
Change {now} {c} {c'} (removes seq _) = waiting c' ≡ stopped seq (waiting c)
Change {now} {c} {c'} (searches _) = waiting c' ≡ waiting c
Change {now} {c} {c'} (limits _) = waiting c' ≡ waiting c
Change {now} {c} {c'} (keeps_seq seq _) = waiting c' ≡ waiting c
Change {now} {c} {c'} (limits_read _) = waiting c' ≡ waiting c
Change {now} {c} {c'} (marks_reading b _) = waiting c' ≡ waiting c

push_req-waiting :
    (now seq n : ℕ) (c : TimeoutCodec)
    → IsSound now c
    → (s : ℕ) → waiting (push_req now seq n c) s ≡ (if seq == s then some now else waiting c s)
unfolding push_req
push_req-waiting now seq n c v s = by (seq == s) (lookup s c.seq2em) refl
  where
    by :
        (b : Bool) (o : Option ℕ)
        → lookup s c.seq2em ≡ o
        → time_at (time_of (push_req now seq n c)) (if b then some (suc c.made) else o)
          ≡ (if b then some now else time_at (time_of c) o)
    by true o e = ground arith
    by false none e = refl
    by false (some p) e = ground (arith, v.fresh p (v.index.mapped s p e).0)

remove_req-waiting :
    (seq : ℕ) (c : TimeoutCodec) (s : ℕ)
    → waiting (remove_req seq c).0 s ≡ (if seq == s then none else waiting c s)
unfolding remove_req
remove_req-waiting seq c s = elim (Option-cases (lookup seq c.seq2em)) [
  | inl e ↦ rw (e, remove_req) (absent e (seq == s) refl)
  | inr (p, e) ↦ rw (e, remove_req) left
]
  where
    absent :
        lookup seq c.seq2em ≡ none
        → (b : Bool) → (seq == s) ≡ b
        → waiting c s ≡ (if b then none else waiting c s)
    absent e true t =
        let same : seq ≡ s = ground arith in
        ap (λ k. time_at (time_of c) (lookup k c.seq2em)) (sym same) ∙ ap (time_at (time_of c)) e
    absent e false t = refl

    left :
        time_at (time_of c) (lookup s (delete seq c.seq2em))
        ≡ (if seq == s then none else waiting c s)
    left = ap (time_at (time_of c)) (lookup-delete seq s c.seq2em) ∙ by (seq == s)
      where
        by :
            (b : Bool)
            → time_at (time_of c) (if b then none else lookup s c.seq2em)
              ≡ (if b then none else waiting c s)
        by true = refl
        by false = refl

with_timeout-waiting : (c : TimeoutCodec) (p s : ℕ) → waiting (with_timeout c p) s ≡ waiting c s
with_timeout-waiting c p s = by (lookup s c.seq2em)
  where
    by : (o : Option ℕ) → time_at (time_of (with_timeout c p)) o ≡ time_at (time_of c) o
    by none = refl
    by (some q) = ap (λ t. some t) (with_timeout-same c p q).1

set_deadline-waiting : (now : ℕ) (c : TimeoutCodec) → waiting (set_deadline now c) ≡ waiting c
unfolding set_deadline
set_deadline-waiting now c = elim (Bool-cases (ltb 0 (length c.li_rpc_req))) [
  | inl t ↦ rw (t, set_deadline) refl
  | inr t ↦ rw (t, set_deadline) refl
]

-- The codec implements a map from the numbers of the waiting requests to their times: after every
-- history, pushReq enters its number with the time, where there was none, removeReq takes its number
-- out, and the steps that search, set deadlines or read headers and bodies leave the map as it is.
pub Step-Change :
    (rt wt now : ℕ) (c c' : TimeoutCodec) → Reach rt wt now c → (step : Step now c c') → Change step
Step-Change rt wt now _ _ r (pushes seq n c free) = (
  ap (time_at (time_of c)) free,
  fun_ext (push_req-waiting now seq n c (codec_reached-IsSound rt wt now c r)),
)
Step-Change rt wt now _ _ r (removes seq c) = fun_ext (remove_req-waiting seq c)
Step-Change rt wt now _ _ r (searches c) =
    get_timeout_req-kept (λ d. waiting d ≡ waiting c) now c
      (λ p. fun_ext (with_timeout-waiting c p)) refl
Step-Change rt wt now _ _ r (limits c) = set_deadline-waiting now c
Step-Change rt wt now _ _ r (keeps_seq seq c) = refl
Step-Change rt wt now _ _ r (limits_read c) = refl
Step-Change rt wt now _ _ r (marks_reading b c) = refl
