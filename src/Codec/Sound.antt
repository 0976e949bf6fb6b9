-- ===== src/Codec/Sound.antt =====
-- The map and the list of requests in gokit/transport/pool/rpc/timeout_codec.go agree, and the list is in
-- the order of the requests, whatever the goroutines that write and read do in between.
use jkfr.Prelude.{
  ℕ, suc, ◌+◌, ◌≤◌, ◌≡◌, refl, ap, inl, inr, Bool, true, false, Option, none, some, List, [], ◌∷◌,
  arith, ◌==◌, if◌then◌else◌, length, elem, remove, lookup, Bool-cases, Option-cases, elem-append,
  elem-remove, remove-NoDup, IsIndex, IsIndex-key, append-IsIndex, delete-IsIndex, subst, ltb,
  delete,
}
use jkfr.Codec.{
  RpcReq, TimeoutCodec, new_timeout_codec, push_req, with_timeout, timeout_front, is_timeout,
  get_timeout_req, remove_req, set_deadline,
}
use jkfr.Codec.Order.{InOrder, InOrder-later, InOrder-same, append-InOrder, remove-InOrder}

abbrev pub seq_of : TimeoutCodec → ℕ → ℕ
seq_of c p = (c.store p).seq

abbrev pub time_of : TimeoutCodec → ℕ → ℕ
time_of c p = (c.store p).req_time

-- `index`: the map takes the number of each listed request to that request, and has no other keys.
-- `ordered`: the list runs from the oldest request to the newest, and none is from after `now`.
pub record IsSound (now : ℕ) (c : TimeoutCodec) : Type 0 where
  pub index : IsIndex (seq_of c) c.seq2em c.li_rpc_req
  pub fresh : (p : ℕ) → elem p c.li_rpc_req ≡ true → p ≤ c.made
  pub ordered : InOrder (time_of c) 0 c.li_rpc_req now

-- A step of a goroutine at the time `now`. net/rpc numbers the requests, so none is pushed under the
-- number of one that waits.
pub data Step (now : ℕ) : TimeoutCodec → TimeoutCodec → Type 0 where
  pushes :
      (seq n : ℕ) (c : TimeoutCodec)
      → lookup seq c.seq2em ≡ none
      → Step now c (push_req now seq n c)
  removes : (seq : ℕ) (c : TimeoutCodec) → Step now c (remove_req seq c).0
  searches : (c : TimeoutCodec) → Step now c (get_timeout_req now c).0
  limits : (c : TimeoutCodec) → Step now c (set_deadline now c)
  keeps_seq : (seq : ℕ) (c : TimeoutCodec) → Step now c (record c { header_seq = seq })
  limits_read :
      (c : TimeoutCodec) → Step now c (record c { read_deadline = some (now + c.read_timeout) })
  marks_reading : (b : Bool) (c : TimeoutCodec) → Step now c (record c { is_reading_body = b })

-- What a history leads to, and the time then.
pub data Reach (read_timeout write_timeout : ℕ) : ℕ → TimeoutCodec → Type 0 where
  made_new :
      (now : ℕ)
      → Reach read_timeout write_timeout now (new_timeout_codec read_timeout write_timeout)
  waits :
      (now later : ℕ) (c : TimeoutCodec)
      → now ≤ later
      → Reach read_timeout write_timeout now c
      → Reach read_timeout write_timeout later c
  steps :
      (now : ℕ) (c c' : TimeoutCodec)
      → Reach read_timeout write_timeout now c
      → Step now c c'
      → Reach read_timeout write_timeout now c'

pub push_req-IsSound :
    (now seq n : ℕ) (c : TimeoutCodec)
    → lookup seq c.seq2em ≡ none
    → IsSound now c
    → IsSound now (push_req now seq n c)
unfolding push_req elem
push_req-IsSound now seq n c free v = record {
  index =
      append-IsIndex (seq_of (push_req now seq n c)) c.seq2em c.li_rpc_req (suc c.made) seq unlisted
        free (ground arith)
        (IsIndex-key (seq_of c) (seq_of (push_req now seq n c)) c.seq2em c.li_rpc_req
          (λ p e. ground (arith, v.fresh p e)) v.index);
  fresh = λ p e. ground (arith, elem-append p c.li_rpc_req (suc c.made ∷ []), v.fresh p);
  ordered =
      append-InOrder (time_of (push_req now seq n c)) 0 c.li_rpc_req now (suc c.made) (ground arith)
        (InOrder-same (time_of c) (time_of (push_req now seq n c)) 0 c.li_rpc_req now
          (λ p e. ground (arith, v.fresh p e)) v.ordered);
}
  where
    unlisted : elem (suc c.made) c.li_rpc_req ≡ false
    unlisted = ground (arith, v.fresh (suc c.made))

pub remove_req-IsSound :
    (now seq : ℕ) (c : TimeoutCodec) → IsSound now c → IsSound now (remove_req seq c).0
unfolding remove_req
remove_req-IsSound now seq c v = elim (Option-cases (lookup seq c.seq2em)) [
  | inl e ↦ rw (e, remove_req) v
  | inr (p, e) ↦
      let (held, at) = v.index.mapped seq p e in
      rw (e, remove_req)
        (record {
          index =
              subst (λ a. IsIndex (seq_of c) (delete a c.seq2em) (remove p c.li_rpc_req)) at
                (delete-IsIndex (seq_of c) c.seq2em c.li_rpc_req (remove p c.li_rpc_req) p held
                  (λ q. elem-remove p q c.li_rpc_req) (remove-NoDup p c.li_rpc_req v.index.once)
                  v.index);
          fresh = λ q h. v.fresh q (ground (arith, elem-remove p q c.li_rpc_req));
          ordered = remove-InOrder (time_of c) 0 c.li_rpc_req now p v.ordered;
        })
]

-- Marking a request changes neither its number nor its time.
pub with_timeout-same :
    (c : TimeoutCodec) (p q : ℕ)
    → (seq_of (with_timeout c p) q ≡ seq_of c q) × (time_of (with_timeout c p) q ≡ time_of c q)
with_timeout-same c p q = by (p == q) refl
  where
    marked : RpcReq
    marked = record (c.store p) { timed_out = true }

    by :
        (b : Bool)
        → (p == q) ≡ b
        → ((if b then marked else c.store q).seq ≡ seq_of c q)
          × ((if b then marked else c.store q).req_time ≡ time_of c q)
    by true t = let p≡q : p ≡ q = ground arith in (ap (seq_of c) p≡q, ap (time_of c) p≡q)
    by false t = (refl, refl)

pub with_timeout-IsSound :
    (now : ℕ) (c : TimeoutCodec) (p : ℕ) → IsSound now c → IsSound now (with_timeout c p)
with_timeout-IsSound now c p v = record {
  index =
      IsIndex-key (seq_of c) (seq_of (with_timeout c p)) c.seq2em c.li_rpc_req
        (λ q e. (with_timeout-same c p q).0) v.index;
  fresh = v.fresh;
  ordered =
      InOrder-same (time_of c) (time_of (with_timeout c p)) 0 c.li_rpc_req now
        (λ q e. (with_timeout-same c p q).1) v.ordered;
}

-- A search marks a request or leaves everything.
pub get_timeout_req-kept {ℓ} :
    (P : TimeoutCodec → Type ℓ) (now : ℕ) (c : TimeoutCodec)
    → ((p : ℕ) → P (with_timeout c p))
    → P c
    → P (get_timeout_req now c).0
unfolding get_timeout_req
get_timeout_req-kept P now c marked same = front c.li_rpc_req
  where
    chosen :
        (p : ℕ) (b : Bool)
        → P (if◌then◌else◌ {A = TimeoutCodec × Option ℕ} b (with_timeout c p, some p) (c, none)).0
    chosen p true = marked p
    chosen p false = same

    front : (ps : List ℕ) → P (timeout_front now c ps).0
    front [] = same
    front (p ∷ ps) = chosen p (is_timeout now c p)

-- What does not touch the requests keeps the invariant.
pub same-IsSound :
    (now : ℕ) (c : TimeoutCodec) (h : ℕ) (b : Bool) (r w : Option ℕ)
    → IsSound now c
    → IsSound now
        (record c { header_seq = h; is_reading_body = b; read_deadline = r; write_deadline = w })
same-IsSound now c h b r w v = record { index = v.index; fresh = v.fresh; ordered = v.ordered }

pub set_deadline-IsSound :
    (now : ℕ) (c : TimeoutCodec) → IsSound now c → IsSound now (set_deadline now c)
unfolding set_deadline
set_deadline-IsSound now c v = elim (Bool-cases (ltb 0 (length c.li_rpc_req))) [
  | inl t ↦ rw (t, set_deadline) (same-IsSound now c c.header_seq c.is_reading_body _ _ v)
  | inr t ↦ rw (t, set_deadline) (same-IsSound now c c.header_seq c.is_reading_body _ _ v)
]

Step-IsSound : (now : ℕ) (c c' : TimeoutCodec) → Step now c c' → IsSound now c → IsSound now c'
Step-IsSound now _ _ (pushes seq n c free) v = push_req-IsSound now seq n c free v
Step-IsSound now _ _ (removes seq c) v = remove_req-IsSound now seq c v
Step-IsSound now _ _ (searches c) v =
    get_timeout_req-kept (IsSound now) now c (λ p. with_timeout-IsSound now c p v) v
Step-IsSound now _ _ (limits c) v = set_deadline-IsSound now c v
Step-IsSound now _ _ (keeps_seq seq c) v =
    same-IsSound now c seq c.is_reading_body c.read_deadline c.write_deadline v
Step-IsSound now _ _ (limits_read c) v =
    same-IsSound now c c.header_seq c.is_reading_body _ c.write_deadline v
Step-IsSound now _ _ (marks_reading b c) v =
    same-IsSound now c c.header_seq b c.read_deadline c.write_deadline v

-- After every history of steps, the goroutines' in any order and the clock not running back, the map
-- takes the number of each listed request to that request and has no other keys, no request is listed
-- twice, and the list runs from the oldest request to the newest, none of them from the future.
pub codec_reached-IsSound : (rt wt now : ℕ) (c : TimeoutCodec) → Reach rt wt now c → IsSound now c
unfolding new_timeout_codec elem
codec_reached-IsSound rt wt _ _ (made_new now) = record {
  index = record { listed = λ p e. cc; mapped = λ a p e. cc; once = tt };
  fresh = λ p e. cc;
  ordered = omega arith;
}
codec_reached-IsSound rt wt _ _ (waits before now c h r) =
    let v = codec_reached-IsSound rt wt before c r in
    record {
      index = v.index;
      fresh = v.fresh;
      ordered = InOrder-later (time_of c) 0 c.li_rpc_req before now h v.ordered;
    }
codec_reached-IsSound rt wt _ _ (steps now before c r s) =
    Step-IsSound now before c s (codec_reached-IsSound rt wt now before r)
