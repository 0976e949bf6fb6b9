-- ===== src/Pool/Calls/Uses.antt =====
-- The use counter of a client in gokit/transport/pool/pool.go.
use jkfr.Prelude.{
  ℕ, ◌≡◌, refl, sym, ap, ◌∙◌, inl, inr, Bool, true, false, Option, none, some, arith, ◌==◌,
  if◌then◌else◌, ℤ, pos, negsuc, ◌+ℤ◌, +ℤ_undo, Bool-cases, Option-cases,
}
use jkfr.Pool.Client.{Client, Connected, Env, Heap, update, add_ref}
use jkfr.Pool.Client.Dial.{Ending, refused, kept, limited, broken, opened, connect-Ending}
use jkfr.Pool.Clients.{
  Clients, Got, got, failed, fault, push_client, answer, choose, get, get_from, get_chosen,
  get_one_valid_client, round_get, pushed_if, written,
}
use jkfr.Pool.Clients.Keep.{Factories}
use jkfr.Pool.Clients.Get.{choose-kept}
use jkfr.Pool.Calls.{Pool, with_clients, get_client, hand_out, put}

Ending-ref : {env : Env} {p : ℕ} {c : Client} {r : Connected} → Ending env p c r → r.0.ref ≡ c.ref
Ending-ref (refused d) = refl
Ending-ref (kept a o) = refl
Ending-ref (limited a o l) = refl
Ending-ref (broken c' o o' i f t e d) = f
Ending-ref (opened c' o n o' i f d) = f

-- The counters of all clients.
abbrev pub refs : Clients → ℕ → ℤ
refs s q = (s.heap q).ref

same_at :
    (h : Heap) (p : ℕ) (c : Client) (q : ℕ) → c.ref ≡ (h p).ref → (update h p c q).ref ≡ (h q).ref
same_at h p c q e = either (p == q) refl
  where
    either : (b : Bool) → (p == q) ≡ b → (if b then c else h q).ref ≡ (h q).ref
    either true t = let p≡q : p ≡ q = ground arith in e ∙ ap (λ (u : ℕ). (h u).ref) p≡q
    either false t = refl

pushed-ref :
    (env : Env) (s : Clients) (p q : ℕ) (b : Bool)
    → s.is_close ≡ false
    → refs (pushed_if env s p b) q ≡ refs s q
unfolding push_client
pushed-ref env s p q true up = ground (arith, up)
pushed-ref env s p q false up = refl

answer-ref :
    (env : Env) (s : Clients) (p : ℕ) (r : Connected) (q : ℕ)
    → s.is_close ≡ false
    → r.0.ref ≡ (s.heap p).ref
    → refs (answer env s p r).0 q ≡ refs s q
unfolding answer
answer-ref env s p (c, fresh, none) q up e =
    pushed-ref env (written s p c) p q fresh up ∙ same_at s.heap p c q e
answer-ref env s p (c, fresh, some x) q up e = elim (Option-cases (get_one_valid_client env s)) [
  | inl v ↦ rw (v, answer) (same_at s.heap p c q e)
  | inr (y, v) ↦
      rw (v, answer) (pushed-ref env (written s p c) p q fresh up ∙ same_at s.heap p c q e)
]

choose-up : (s : Clients) → (choose s).0.is_close ≡ s.is_close
unfolding round_get
choose-up s = ground arith

get-ref :
    (env : Env) (s : Clients) (q : ℕ)
    → Factories env
    → s.is_close ≡ false
    → refs (get env s).0 q ≡ refs s q
unfolding get get_chosen
get-ref env s q fs up = from ((choose s).1)
  where
    kept_ref : refs (choose s).0 q ≡ refs s q
    kept_ref = ap (λ (h : Heap). (h q).ref) (choose-kept s).1

    from : (o : Option ℕ) → refs (get_from env (choose s).0 o).0 q ≡ refs s q
    from none = kept_ref
    from (some p) =
        answer-ref env (choose s).0 p _ q (choose-up s ∙ up)
          (Ending-ref (connect-Ending env p ((choose s).0.heap p) (fs p)))
        ∙ kept_ref

-- The counters after a call of Get: the client that is handed out counts one more.
counted : Clients → Got → ℕ → ℤ
counted s (got p) q = if p == q then refs s q +ℤ pos 1 else refs s q
counted s (failed e) q = refs s q
counted s fault q = refs s q

hand_out-counted :
    (env : Env) (s : Clients) (r : Clients × Got) (q : ℕ)
    → refs r.0 q ≡ refs s q
    → refs (hand_out env r).0 q ≡ counted s r.1 q
unfolding hand_out counted add_ref
hand_out-counted env s (t, got p) q e = either (p == q) refl
  where
    either :
        (b : Bool)
        → (p == q) ≡ b
        → (if b
            then record (t.heap p) { ref = (t.heap p).ref +ℤ pos 1; req_tm = env.now }
            else t.heap q).ref
          ≡ (if b then refs s q +ℤ pos 1 else refs s q)
    either true m =
        let p≡q : p ≡ q = ground arith in
        ap (λ (u : ℕ). (t.heap u).ref +ℤ pos 1) p≡q ∙ ap (λ (z : ℤ). z +ℤ pos 1) e
    either false m = e
hand_out-counted env s (t, failed x) q e = e
hand_out-counted env s (t, fault) q e = e

hand_out-got : (env : Env) (r : Clients × Got) → (hand_out env r).1 ≡ r.1
unfolding hand_out
hand_out-got env (t, got p) = refl
hand_out-got env (t, failed x) = refl
hand_out-got env (t, fault) = refl

pub get_client-open :
    (env : Env) (pl : Pool)
    → pl.locked ≡ false
    → get_client env pl ≡ (
      with_clients pl (hand_out env (get env pl.clients)).0,
      (hand_out env (get env pl.clients)).1,
    )
unfolding get_client
get_client-open env pl up = simp (up, get_client)

put-good_refs :
    (env : Env) (pl : Pool) (p q : ℕ)
    → pl.locked ≡ false
    → refs (put env pl (some p) true).0.clients q
      ≡ (if p == q then refs pl.clients q +ℤ negsuc 0 else refs pl.clients q)
unfolding put add_ref
put-good_refs env pl p q up = rw (up, put) (either (p == q) refl)
  where
    either :
        (b : Bool)
        → (p == q) ≡ b
        → (if b
            then record (pl.clients.heap p) { ref = (pl.clients.heap p).ref +ℤ negsuc 0 }
            else pl.clients.heap q).ref
          ≡ (if b then refs pl.clients q +ℤ negsuc 0 else refs pl.clients q)
    either true m =
        let p≡q : p ≡ q = ground arith in ap (λ (u : ℕ). refs pl.clients u +ℤ negsuc 0) p≡q
    either false m = refl

-- Get of an open pool, with factories that keep to their contract, adds one to the counter of the client
-- that it returns, and to no other. A Put of that client as good takes every counter back.
pub uses_returned :
    (env env' : Env) (pl : Pool) (p : ℕ)
    → Factories env
    → pl.locked ≡ false
    → pl.clients.is_close ≡ false
    → (get_client env pl).1 ≡ got p
    → ((q : ℕ)
        → refs (get_client env pl).0.clients q
          ≡ (if p == q then refs pl.clients q +ℤ pos 1 else refs pl.clients q))
      × ((q : ℕ)
          → refs (put env' (get_client env pl).0 (some p) true).0.clients q ≡ refs pl.clients q)
unfolding counted
uses_returned env env' pl p fs up running e =
    (added, λ q. put-good_refs env' after p q locked ∙ undone q)
  where
    after : Pool
    after = (get_client env pl).0

    opened_by : get_client env pl ≡ (
      with_clients pl (hand_out env (get env pl.clients)).0,
      (hand_out env (get env pl.clients)).1,
    )
    opened_by = get_client-open env pl up

    locked : after.locked ≡ false
    locked = ap (λ (r : Pool × Got). r.0.locked) opened_by ∙ up

    which : (get env pl.clients).1 ≡ got p
    which =
        sym (hand_out-got env (get env pl.clients))
        ∙ sym (ap (λ (r : Pool × Got). r.1) opened_by)
        ∙ e

    added :
        (q : ℕ)
        → refs after.clients q ≡ (if p == q then refs pl.clients q +ℤ pos 1 else refs pl.clients q)
    added q =
        ap (λ (r : Pool × Got). refs r.0.clients q) opened_by
        ∙ hand_out-counted env pl.clients (get env pl.clients) q
            (get-ref env pl.clients q fs running)
        ∙ ap (λ (r : Got). counted pl.clients r q) which

    undone :
        (q : ℕ)
        → (if p == q then refs after.clients q +ℤ negsuc 0 else refs after.clients q)
          ≡ refs pl.clients q
    undone q = elim (Bool-cases (p == q)) [
      | inl t ↦
          rw t (ap (λ (z : ℤ). z +ℤ negsuc 0) (rw t at (added q)) ∙ +ℤ_undo (refs pl.clients q))
      | inr t ↦ rw t (rw t at (added q))
    ]
