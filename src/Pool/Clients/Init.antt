-- ===== src/Pool/Clients/Init.antt =====
-- `init_clients` of gokit/transport/pool/pool.go: what success and failure leave behind.
use jkfr.Prelude.{
  ℕ, ◌-◌, ◌≤◌, ◌≡◌, refl, sym, ap, subst, ◌∙◌, ◌⊎◌, inl, inr, Bool, true, false, none, some, List,
  [], ◌∷◌, arith, ◌==◌, if◌then◌else◌, take, elem, NoDup, Bool-cases, Option-cases,
}
use jkfr.Pool.Options.{Error, second}
use jkfr.Pool.Client.{Client, Connected, Env, is_open}
use jkfr.Pool.Client.Dial.{Ending, refused, kept, limited, broken, opened, connect-Ending}
use jkfr.Pool.Clients.{
  Clients, Outcome, push_client, init_with, init_one, init_slots, init_clients, init_end, flagged,
}
use jkfr.Pool.Clients.Keep.{Factories}

-- What one round changes: at most the client of its slot.
init_one-others :
    (env : Env) (s : Clients) (p : ℕ)
    → ((init_one env s p).0.initting ≡ s.initting)
      × ((init_one env s p).0.is_close ≡ s.is_close)
      × ((q : ℕ) → (p == q) ≡ false → (init_one env s p).0.heap q ≡ s.heap q)
unfolding init_one init_with push_client
init_one-others env s p = (ground arith, ground arith, λ q e. ground arith)

init_slots-flag :
    (env : Env) (s : Clients) (ps : List ℕ) → (init_slots env s ps).0.initting ≡ s.initting
unfolding init_slots
init_slots-flag env s [] = refl
init_slots-flag env s (p ∷ ps) = elim (Option-cases (init_one env s p).1) [
  | inl e ↦
      rw (e, init_slots) (init_slots-flag env (init_one env s p).0 ps ∙ (init_one-others env s p).0)
  | inr (x, e) ↦ rw (e, init_slots) (init_one-others env s p).0
]

-- Once init_clients has failed, a further call, in any surroundings, returns at once: it reports no
-- error and changes nothing.
pub init_clients_stuck :
    (env env' : Env) (s : Clients) (e : Error)
    → (init_clients env s).1 ≡ some e
    → init_clients env' (init_clients env s).0 ≡ ((init_clients env s).0, none)
unfolding init_clients
init_clients_stuck env env' s e failed = set_flag (init_clients env s).0 raised
  where
    set_flag :
        (t : Clients)
        → t.initting ≡ true
        → (if t.initting
            then (t, none)
            else init_end (init_slots env' (flagged t) (take t.o.init_cap t.cs)))
          ≡ (t, none)
    set_flag t up = ground arith

    ended :
        (r : Outcome)
        → r.0.initting ≡ true
        → (init_end r).1 ≡ some e
        → (init_end r).0.initting ≡ true
    ended (t, some x) up f = up
    ended (t, none) up f = cc

    by_flag :
        (b : Bool)
        → s.initting ≡ b
        → (if b
            then (s, none)
            else init_end (init_slots env (flagged s) (take s.o.init_cap s.cs))).1
          ≡ some e
        → (if b
            then (s, none)
            else init_end (init_slots env (flagged s) (take s.o.init_cap s.cs))).0.initting
          ≡ true
    by_flag true f g = f
    by_flag false f g = ended _ (init_slots-flag env (flagged s) (take s.o.init_cap s.cs)) g

    raised : (init_clients env s).0.initting ≡ true
    raised = by_flag s.initting refl failed

-- A client that is connected, or that may be dialed now.
abbrev pub IsReady : Env → Client → Type 0
IsReady env c = (is_open c ≡ true) ⊎ (second ≤ env.now - c.conn_tm)

init_with-opens :
    (env : Env) (s : Clients) (p : ℕ) (r : Connected)
    → s.is_close ≡ false
    → is_open (s.heap p) ≡ false
    → IsReady env (s.heap p)
    → Ending env p (s.heap p) r
    → (init_with env s p r).1 ≡ none
    → is_open ((init_with env s p r).0.heap p) ≡ true
unfolding init_with push_client
init_with-opens env s p r up o ready (refused d) e = cc
init_with-opens env s p r up o ready (kept a q) e = cc
init_with-opens env s p r up o ready (limited a q l) e = absurd (ground arith)
init_with-opens env s p r up o ready (broken c' q q' x f t y d) e = cc
init_with-opens env s p r up o ready (opened c' q n q' x f d) e = ground (arith, up)

init_one-opens :
    (env : Env) (s : Clients) (p : ℕ)
    → Factories env
    → s.is_close ≡ false
    → IsReady env (s.heap p)
    → (init_one env s p).1 ≡ none
    → is_open ((init_one env s p).0.heap p) ≡ true
unfolding init_one
init_one-opens env s p fs up ready done = elim (Bool-cases (is_open (s.heap p))) [
  | inl o ↦ rw (o, init_one) o
  | inr o ↦
      rw (o, init_one)
        (init_with-opens env s p _ up o ready (connect-Ending env p (s.heap p) (fs p))
          (rw (o, init_one) at done))
]

-- A successful loop leaves every slot that it visits connected.
pub init_slots-opens :
    (env : Env) (s : Clients) (ps : List ℕ)
    → Factories env
    → s.is_close ≡ false
    → NoDup ps
    → ((q : ℕ) → elem q ps ≡ true → IsReady env (s.heap q))
    → (init_slots env s ps).1 ≡ none
    → ((q : ℕ) → elem q ps ≡ true → is_open ((init_slots env s ps).0.heap q) ≡ true)
      × ((q : ℕ) → elem q ps ≡ false → (init_slots env s ps).0.heap q ≡ s.heap q)
unfolding init_slots elem
init_slots-opens env s [] fs up n ready done = (λ q e. cc, λ q e. refl)
init_slots-opens env s (p ∷ ps) fs up n ready done = elim (Option-cases (init_one env s p).1) [
  | inr (x, e) ↦ absurd (stopped (rw (e, init_slots) at done))
  | inl e ↦
      let step = init_one-others env s p in
      let opened_p = init_one-opens env s p fs up (ready p (ground arith)) e in
      let rest =
        init_slots-opens env (init_one env s p).0 ps fs (step.1 ∙ up) n.1 (λ q m. still q m)
          (rw (e, init_slots) at done) in
      rw (e, init_slots)
        (
          (λ q m. elim (Bool-cases (p == q)) [
            | inl t ↦
                let p≡q : p ≡ q = ground arith in
                subst (λ u. is_open ((init_slots env (init_one env s p).0 ps).0.heap u) ≡ true) p≡q
                  (ap (λ (c : Client). is_open c) (rest.1 p n.0) ∙ opened_p)
            | inr t ↦ rest.0 q (rw t at m)
          ]),
          λ q m. rest.1 q (ground arith) ∙ step.2 q (ground arith),
        )
]
  where
    stopped : {x : Error} → some x ≡ none → ⊥
    stopped q = cc

    still : (q : ℕ) → elem q ps ≡ true → IsReady env ((init_one env s p).0.heap q)
    still q m = elim (Bool-cases (p == q)) [
      | inl t ↦
          let p≡q : p ≡ q = ground arith in
          absurd (repeated (sym n.0 ∙ ap (λ (u : ℕ). elem u ps) p≡q ∙ m))
      | inr t ↦ rw ((init_one-others env s p).2 q t) (ready q (rw t m))
    ]
      where
        repeated : false ≡ true → ⊥
        repeated e = cc
