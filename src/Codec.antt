-- ===== src/Codec.antt =====
-- timeoutCodec of gokit/transport/pool/rpc/timeout_codec.go: an rpc.ClientCodec that keeps the requests
-- without an answer, and answers those that have waited too long itself. Pointers are numbers, times
-- are nanoseconds, and mtReq makes push_req, get_timeout_req, remove_req and set_deadline one step each.
-- The codec inside is a parameter: its answers are arguments.
pub mod Order
pub mod Sound
pub mod Timeouts
pub mod Write
pub mod Round
pub mod Methods
pub mod Input
pub mod Waiting
mod Tests
use jkfr.Prelude.{
  ℕ, suc, ◌+◌, ◌-◌, ◌*◌, ◌^◌, Bool, true, false, ◌&&◌, Option, none, some, List, [], ◌∷◌, ◌++◌, ltb,
  ◌==◌, if◌then◌else◌, length, lookup, delete, remove,
}
use jkfr.Pool.Options.{second}

-- rpcReq: `timed_out` stands for err, which is nil or ErrTimeout.
pub record RpcReq : Type 0 where
  pub seq : ℕ
  pub service_method : ℕ
  pub req_time : ℕ
  pub timed_out : Bool

-- `store` takes a pointer to an rpcReq to what it points to, and `made` counts those made. An element
-- of the list goes by the pointer that it holds. The deadlines are those of `conn`.
pub record TimeoutCodec : Type 0 where
  pub store : ℕ → RpcReq
  pub made : ℕ
  pub seq2em : List (ℕ × ℕ)
  pub li_rpc_req : List ℕ
  pub header_seq : ℕ
  pub is_reading_body : Bool
  pub read_timeout : ℕ
  pub write_timeout : ℕ
  pub read_deadline : Option ℕ
  pub write_deadline : Option ℕ

abbrev no_req : RpcReq
no_req = record { seq = 0; service_method = 0; req_time = 0; timed_out = false }

-- NewTimeoutCodec
unfoldable pub new_timeout_codec : ℕ → ℕ → TimeoutCodec
new_timeout_codec read_timeout write_timeout = record {
  store = λ p. no_req;
  made = 0;
  seq2em = [];
  li_rpc_req = [];
  header_seq = 2 ^ 64 - 1;
  is_reading_body = false;
  read_timeout = read_timeout;
  write_timeout = write_timeout;
  read_deadline = none;
  write_deadline = none;
}

abbrev pub req_at : (ℕ → RpcReq) → ℕ → RpcReq → ℕ → RpcReq
req_at st p e q = if p == q then e else st q

-- pushReq, at the time `now`. A newer entry of the map hides an older one of its key.
unfoldable pub push_req : ℕ → ℕ → ℕ → TimeoutCodec → TimeoutCodec
push_req now seq service_method c = record c {
  store =
      req_at c.store (suc c.made)
        (record { seq = seq; service_method = service_method; req_time = now; timed_out = false });
  made = suc c.made;
  li_rpc_req = c.li_rpc_req ++ suc c.made ∷ [];
  seq2em = (seq, suc c.made) ∷ c.seq2em;
}

-- time.Since(rq.reqTime) > tc.readTimeout
abbrev pub is_timeout : ℕ → TimeoutCodec → ℕ → Bool
is_timeout now c p = ltb c.read_timeout (now - (c.store p).req_time)

-- rq.err = ErrTimeout
abbrev pub with_timeout : TimeoutCodec → ℕ → TimeoutCodec
with_timeout c p = record c { store = req_at c.store p (record (c.store p) { timed_out = true }) }

abbrev pub timeout_front : ℕ → TimeoutCodec → List ℕ → TimeoutCodec × Option ℕ
timeout_front now c [] = (c, none)
timeout_front now c (p ∷ ps) = if is_timeout now c p then (with_timeout c p, some p) else (c, none)

-- getTimeoutReq, which gives the pointer to the request that it returns the request of
unfoldable pub get_timeout_req : ℕ → TimeoutCodec → TimeoutCodec × Option ℕ
get_timeout_req now c = timeout_front now c c.li_rpc_req

-- removeReq
unfoldable pub remove_req : ℕ → TimeoutCodec → TimeoutCodec × Option ℕ
remove_req seq c = elim (lookup seq c.seq2em) [
  | none ↦ (c, none)
  | some p ↦ (record c { li_rpc_req = remove p c.li_rpc_req; seq2em = delete seq c.seq2em }, some p)
]

abbrev pub year : ℕ
year = 365 * 24 * 3_600 * second

-- setDeadline
unfoldable pub set_deadline : ℕ → TimeoutCodec → TimeoutCodec
set_deadline now c =
    if ltb 0 (length c.li_rpc_req)
    then record c {
      read_deadline = some (now + c.read_timeout);
      write_deadline = some (now + c.write_timeout);
    }
    else record c {
      read_deadline = if c.is_reading_body then c.read_deadline else some (now + year);
      write_deadline = some (now + year);
    }

-- WriteRequest: `now` gives the times that the clock shows, and `sent` is the error of the codec inside.
unfoldable pub write_request : (ℕ → ℕ) → Option ℕ → ℕ → ℕ → TimeoutCodec → TimeoutCodec × Option ℕ
write_request now sent seq service_method c =
    let pushed = set_deadline (now 1) (push_req (now 0) seq service_method c) in
    elim sent [
      | none ↦ (pushed, none)
      | some e ↦ (set_deadline (now 2) (remove_req seq pushed).0, some e)
    ]

-- What the codec inside reads: the number of a response, or an error.
pub data Inner : Type 0 where
  header : ℕ → Inner
  header_error : ℕ → Inner

-- What ReadResponseHeader fills in: an answer with the error ErrTimeout, or what the codec inside reads.
pub data Header : Type 0 where
  timeout_header : ℕ → ℕ → Header
  inner_header : Inner → Header

abbrev pub timeout_answer : TimeoutCodec × Option ℕ → TimeoutCodec × Option Header
timeout_answer (c, none) = (c, none)
timeout_answer (c, some p) =
    let rq = c.store p in
    (record c { header_seq = rq.seq }, some (timeout_header rq.seq rq.service_method))

-- getTimeoutRequest
unfoldable pub get_timeout_request : ℕ → TimeoutCodec → TimeoutCodec × Option Header
get_timeout_request now c = timeout_answer (get_timeout_req now c)

abbrev pub keep_seq : Inner → TimeoutCodec → TimeoutCodec
keep_seq (header seq) c = record c { header_seq = seq }
keep_seq (header_error e) c = c

abbrev pub or_inner : ℕ → Inner → TimeoutCodec × Option Header → TimeoutCodec × Header
or_inner now inner (c, none) = (keep_seq inner (set_deadline now c), inner_header inner)
or_inner now inner (c, some h) = (c, h)

-- ReadResponseHeader: `inner` is what the codec inside reads, if it is asked.
unfoldable pub read_response_header : (ℕ → ℕ) → Inner → TimeoutCodec → TimeoutCodec × Header
read_response_header now inner c = or_inner (now 1) inner (get_timeout_request (now 0) c)

-- Whether the codec inside was asked for the body, and its error.
pub data BodyRead : Type 0 where
  skipped : BodyRead
  read : Option ℕ → BodyRead

abbrev pub is_timed_out : TimeoutCodec → Option ℕ → Bool
is_timed_out c none = false
is_timed_out c (some p) = (c.store p).timed_out

-- ReadResponseBody: `is_nil` tells whether `body` is nil, and `inner` is the error of the codec inside.
unfoldable pub read_response_body : ℕ → Bool → Option ℕ → TimeoutCodec → TimeoutCodec × BodyRead
read_response_body now is_nil inner c =
    let (c', rq) = remove_req c.header_seq c in
    if is_nil && is_timed_out c' rq then (c', skipped) else (
      record c' { read_deadline = some (now + c.read_timeout); is_reading_body = false },
      read inner,
    )
