-- ===== src/Single/Account.antt =====
-- What a call of gokit/transport/pool/rpc/pool.go or grpc/pool.go leaves of the client that it used.
use jkfr.Prelude.{
  ℕ, ◌≡◌, sym, ap, ◌∙◌, Bool, true, false, some, arith, ◌==◌, if◌then◌else◌, elem, elem-remove, pos,
  negsuc, ◌+ℤ◌, is_none, remove, Bool-cases, Option-cases, inl, inr, subst,
}
use jkfr.Pool.Client.{Env, add_ref, close}
use jkfr.Pool.Clients.{Clients, Got, got, move_recycle, retire_to, retire}
use jkfr.Pool.Clients.Keep.{Factories}
use jkfr.Pool.Calls.{Pool, get_client, put, put_bad, edit}
use jkfr.Pool.Calls.Uses.{refs, uses_returned, get_client-open}
use jkfr.Single.{
  RpcEnd, rpc_good, GrpcEnd, grpc_good, Called, ended, not_client, call_got, rpc_pool_call,
  grpc_pool_call,
}

move_recycle-unlisted :
    (env : Env) (s : Clients) (p : ℕ) → elem p (move_recycle env s p).0.pc2c ≡ false
unfolding move_recycle retire_to retire
move_recycle-unlisted env s p =
    let gone : elem p (remove p s.pc2c) ≡ false = ground (arith, elem-remove p p s.pc2c) in
    elim (Bool-cases (elem p s.pc2c)) [
      | inl m ↦ elim (Option-cases s.recycle) [
        | inl e ↦ rw (m, e, move_recycle) gone
        | inr (r, e) ↦ rw (m, e, move_recycle) gone
      ]
      | inr m ↦ elim (Option-cases s.recycle) [
        | inl e ↦ rw (m, e, move_recycle) m
        | inr (r, e) ↦ rw (m, e, move_recycle) m
      ]
    ]

put-bad_unlisted :
    (env : Env) (pl : Pool) (p : ℕ)
    → pl.locked ≡ false
    → elem p (put env pl (some p) false).0.clients.pc2c ≡ false
unfolding put put_bad
put-bad_unlisted env pl p up = rw (up, put) (either (is_none (move_recycle env s p).1))
  where
    s : Clients
    s = edit pl.clients p (add_ref (negsuc 0) (pl.clients.heap p))

    either :
        (b : Bool)
        → elem p
            (if b
              then edit (move_recycle env s p).0 p (close env ((move_recycle env s p).0.heap p)).0
              else (move_recycle env s p).0).pc2c
          ≡ false
    either true = move_recycle-unlisted env s p
    either false = move_recycle-unlisted env s p

-- What a call over a client leaves: the counters as they were, if the client is put back as good; else
-- the client out of the map of those that are connected.
abbrev pub IsSettled : Clients → ℕ → Bool → Clients → Type 0
IsSettled s p true t = (q : ℕ) → refs t q ≡ refs s q
IsSettled s p false t = elem p t.pc2c ≡ false

module _ {A : Type 0} (good : A → Bool) (before after : Env) (a : A) (pl : Pool) (p : ℕ)
    (fs : Factories before) (up : pl.locked ≡ false) (running : pl.clients.is_close ≡ false)
    (handed : (get_client before pl).1 ≡ got p) where
  abbrev call : Bool → Pool × Called A
  call is_client = call_got good after is_client a (get_client before pl)

  taken : Pool
  taken = (get_client before pl).0

  put_back : (b : Bool) → IsSettled pl.clients p b (put after taken (some p) b).0.clients
  unfolding taken
  put_back true = (uses_returned before after pl p fs up running handed).1
  put_back false =
      put-bad_unlisted after taken p
        (ap (λ (r : Pool × Got). r.0.locked) (get_client-open before pl up) ∙ up)

  called : (is_client : Bool) → call is_client ≡ call_got good after is_client a (taken, got p)
  unfolding taken
  called is_client = ap (λ (g : Got). call_got good after is_client a (taken, g)) handed

  ended_call : (IsSettled pl.clients p (good a) (call true).0.clients) × ((call true).1 ≡ ended a)
  ended_call = (
    subst (λ (r : Pool × Called A). IsSettled pl.clients p (good a) r.0.clients) (sym (called true))
        (put_back (good a)),
    ap (λ (r : Pool × Called A). r.1) (called true),
  )

  kept_call :
      ((q : ℕ)
        → refs (call false).0.clients q
          ≡ (if p == q then refs pl.clients q +ℤ pos 1 else refs pl.clients q))
      × ((call false).1 ≡ not_client)
  unfolding taken
  kept_call = (
    λ q.
        ap (λ (r : Pool × Called A). refs r.0.clients q) (called false)
        ∙ (uses_returned before after pl p fs up running handed).0 q,
    ap (λ (r : Pool × Called A). r.1) (called false),
  )

-- What a call leaves of the counters and the map, and what it returns, if its client has the type of the
-- package, and if it has not.
abbrev pub Accounts :
    {A : Type 0} → (A → Bool) → A → Clients → ℕ → Pool × Called A → Pool × Called A → Type 0
Accounts good a s p called uncalled =
    (IsSettled s p (good a) called.0.clients)
    × (called.1 ≡ ended a)
    × ((q : ℕ) → refs uncalled.0.clients q ≡ (if p == q then refs s q +ℤ pos 1 else refs s q))
    × (uncalled.1 ≡ not_client)

-- A call of RpcPool or GRPCPool over an open pool returns what the call over the client came to, once
-- Get has handed out a client. If that was a response or an error of the server (for grpc, one with the
-- code OK, Unknown or Unimplemented), every use counter is as before; if it was another error, the client
-- is not among the connected ones any more. If the client is of another type, the call fails, and the
-- counter of the client stays one higher.
pub single_call-Accounts :
    (before after : Env) (r : RpcEnd) (g : GrpcEnd) (pl : Pool) (p : ℕ)
    → Factories before
    → pl.locked ≡ false
    → pl.clients.is_close ≡ false
    → (get_client before pl).1 ≡ got p
    → Accounts rpc_good r pl.clients p
        (rpc_pool_call before after true r pl)
        (rpc_pool_call before after false r pl)
      × Accounts grpc_good g pl.clients p
          (grpc_pool_call before after true g pl)
          (grpc_pool_call before after false g pl)
unfolding rpc_pool_call grpc_pool_call
single_call-Accounts before after r g pl p fs up running handed =
    let rpc = ended_call rpc_good before after r pl p fs up running handed in
    let rpc' = kept_call rpc_good before after r pl p fs up running handed in
    let grpc = ended_call grpc_good before after g pl p fs up running handed in
    let grpc' = kept_call grpc_good before after g pl p fs up running handed in
    ((rpc.0, rpc.1, rpc'.0, rpc'.1), (grpc.0, grpc.1, grpc'.0, grpc'.1))
