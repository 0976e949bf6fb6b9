-- ===== src/Pool/Recycle/Drain.antt =====
-- The goroutine loop_recycle_clients of gokit/transport/pool/pool.go.
use jkfr.Prelude.{
  ℕ, suc, zero, ◌-◌, ◌*◌, min, ◌≤◌, ◌<◌, ◌≡◌, refl, sym, ap, subst, ◌∙◌, ◌⊎◌, inl, inr, Bool, true,
  false, none, some, List, [], ◌∷◌, arith, ltb, leb, ◌==◌, if◌then◌else◌, length, elem, remove,
  elem-remove, length-remove, Bool-cases,
}
use jkfr.Pool.Options.{Options}
use jkfr.Pool.Client.{Client, Env, close, Heap, IsRange}
use jkfr.Pool.Recycle.{
  Recycle, remove_client, is_releasable, first_releasable, when_full, get_one_client, drain,
  drain_all, wake, Wake, queued, ticked, close_at,
}
use jkfr.Pool.Recycle.Invariant.{IsWhole, IsBounded, remove_client-IsWhole, close_at-IsWhole}
use jkfr.Pool.Recycle.Effect.{close-index}

first_releasable_cases :
    (o : Options) (env : Env) (h : Heap) (ts : List ℕ)
    → ((first_releasable o env h ts ≡ none)
        × ((t : ℕ) → elem t ts ≡ true → is_releasable o env (h t) ≡ false))
      ⊎ ((t : ℕ) × (first_releasable o env h ts ≡ some t)
          × (elem t ts ≡ true)
          × (is_releasable o env (h t) ≡ true))
unfolding first_releasable elem
first_releasable_cases o env h [] = inl (refl, λ t e. cc)
first_releasable_cases o env h (x ∷ ts) =
    pick (is_releasable o env (h x)) refl (first_releasable_cases o env h ts)
  where
    pick :
        (b : Bool)
        → is_releasable o env (h x) ≡ b
        → ((first_releasable o env h ts ≡ none)
            × ((t : ℕ) → elem t ts ≡ true → is_releasable o env (h t) ≡ false))
          ⊎ ((t : ℕ) × (first_releasable o env h ts ≡ some t)
              × (elem t ts ≡ true)
              × (is_releasable o env (h t) ≡ true))
        → (((if b then some x else first_releasable o env h ts) ≡ none)
            × ((t : ℕ) → elem t (x ∷ ts) ≡ true → is_releasable o env (h t) ≡ false))
          ⊎ ((t : ℕ) × ((if b then some x else first_releasable o env h ts) ≡ some t)
              × (elem t (x ∷ ts) ≡ true)
              × (is_releasable o env (h t) ≡ true))
    pick true e rest = inr (x, refl, ground arith, e)
    pick false e (inl (f, r)) = inl (
      f,
      λ t m. elim (Bool-cases (x == t)) [
        | inl q ↦ subst (λ u. is_releasable o env (h u) ≡ false) (ground arith) e
        | inr q ↦ r t (ground arith)
      ],
    )
    pick false e (inr (t, f, m, r)) = inr (t, f, ground arith, r)

elem-empty : (ts : List ℕ) (t : ℕ) → (length ts == 0) ≡ true → elem t ts ≡ false
unfolding elem
elem-empty [] t e = refl
elem-empty (x ∷ ts) t e = ground arith

when_full_cases :
    (o : Options) (ts : List ℕ)
    → ((when_full o ts ≡ none) × (length ts ≤ o.max_cap))
      ⊎ ((t : ℕ) × (when_full o ts ≡ some t) × (elem t ts ≡ true))
unfolding elem
when_full_cases o [] = inl (ground arith, omega arith)
when_full_cases o (t ∷ ts) = elim (Bool-cases (ltb o.max_cap (length (t ∷ ts)))) [
  | inl e ↦ inr (t, rw e, ground arith)
  | inr e ↦ inl (rw e, ground arith)
]

-- What get_one_client answers, and what it means that there is none.
pub get_one_client_cases :
    (o : Options) (env : Env) (h : Heap) (r : Recycle)
    → IsRange env.range
    → IsWhole h r
    → ((get_one_client o env h r ≡ none)
        × ((t : ℕ) → elem t r.clients ≡ true → is_releasable o env (h t) ≡ false)
        × (length r.clients ≤ o.max_cap))
      ⊎ ((t : ℕ) × (get_one_client o env h r ≡ some t) × (elem t r.clients ≡ true))
unfolding get_one_client
get_one_client_cases o env h r range w = elim (Bool-cases (length r.clients == 0)) [
  | inl e ↦ inl (rw e, λ t m. absurd_elem t e m, ground arith)
  | inr e ↦ elim (first_releasable_cases o env h (env.range r.keys)) [
    | inl (f, none_of) ↦ elim (when_full_cases o r.clients) [
      | inl (g, fits) ↦
          inl (rw (e, f, get_one_client) g, λ t m. none_of t (range r.keys t ∙ w.same t ∙ m), fits)
      | inr (t, g, m) ↦ inr (t, rw (e, f, get_one_client) g, m)
    ]
    | inr (t, f, m, _) ↦
        inr (t, rw (e, f, get_one_client), sym (w.same t) ∙ sym (range r.keys t) ∙ m)
  ]
]
  where
    absurd_elem :
        (t : ℕ)
        → (length r.clients == 0) ≡ true
        → elem t r.clients ≡ true
        → is_releasable o env (h t) ≡ false
    absurd_elem t e m = cc (elem-empty r.clients t e)

-- What the inner loop leaves: whole, within the capacity, nothing that could be released, every
-- client that has gone closed, and every other client as it was.
pub record IsDrained (o : Options) (env : Env) (h : Heap) (r : Recycle) (h' : Heap) (r' : Recycle)
    : Type 0 where
  pub whole : IsWhole h' r'
  pub settled : (t : ℕ) → elem t r'.clients ≡ true → is_releasable o env (h' t) ≡ false
  pub fits : length r'.clients ≤ o.max_cap
  pub fewer : (t : ℕ) → elem t r'.clients ≡ true → elem t r.clients ≡ true
  pub effect :
      (t : ℕ)
      → h' t
        ≡ (if elem t r'.clients then h t else if elem t r.clients then (close env (h t)).0 else h t)
  pub tokens : r'.tokens ≡ r.tokens
  pub capacity : r'.capacity ≡ r.capacity

remove_client-of_listed :
    (h : Heap) (r : Recycle) (t : ℕ)
    → IsWhole h r
    → elem t r.clients ≡ true
    → remove_client h r t ≡ record r { clients = remove t r.clients; keys = remove t r.keys }
unfolding remove_client
remove_client-of_listed h r t w m = ground (arith, w.handled t m, w.same t)

IsDrained-step :
    (o : Options) (env : Env) (h : Heap) (r : Recycle) (t : ℕ) (h' : Heap) (r' : Recycle)
    → elem t r.clients ≡ true
    → IsDrained o env
        (close_at env h t)
        (record r { clients = remove t r.clients; keys = remove t r.keys })
        h'
        r'
    → IsDrained o env h r h' r'
IsDrained-step o env h r t h' r' m d = record {
  whole = d.whole;
  settled = d.settled;
  fits = d.fits;
  fewer = λ u e. ground (arith, d.fewer u e, elem-remove t u r.clients);
  effect = λ u. elim (Bool-cases (t == u)) [
    | inl same ↦
        let t≡u : t ≡ u = ground arith in
        subst
          (λ v. h' v ≡ (
            if elem v r'.clients
            then h v
            else if elem v r.clients
            then (close env (h v)).0
            else h v))
          t≡u (ground (arith, d.effect t, d.fewer t, elem-remove t t r.clients, m))
    | inr other ↦ ground (arith, d.effect u, elem-remove t u r.clients)
  ];
  tokens = d.tokens;
  capacity = d.capacity;
}

-- On a whole list, whatever order `range` takes over the keys, the inner loop of loop_recycle_clients
-- ends within one round more than the list has clients. Then the list is whole and holds at most
-- MaxCap clients, none of which was not there before or can be released, and exactly the clients that
-- have left it have been closed.
pub drain-IsDrained :
    (fuel : ℕ) (o : Options) (env : Env) (h : Heap) (r : Recycle)
    → IsRange env.range
    → IsWhole h r
    → length r.clients < fuel
    → (s : Heap × Recycle) × (drain fuel o env (h, r) ≡ some s) × IsDrained o env h r s.0 s.1
unfolding drain
drain-IsDrained zero o env h r range w f = absurd (omega arith)
drain-IsDrained (suc fuel) o env h r range w f = elim (get_one_client_cases o env h r range w) [
  | inl (e, settled, fits) ↦ (
    (h, r),
    rw (e, drain),
    record {
      whole = w;
      settled = settled;
      fits = fits;
      fewer = λ t m. m;
      effect = λ t. ground arith;
      tokens = refl;
      capacity = refl;
    },
  )
  | inr (t, e, m) ↦
      let r' = record r { clients = remove t r.clients; keys = remove t r.keys } in
      let removed = remove_client-of_listed h r t w m in
      let w' : IsWhole (close_at env h t) r' =
        rw removed at (close_at-IsWhole env h _ t (remove_client-IsWhole h r t w)) in
      let (s, ran, d) =
        drain-IsDrained fuel o env (close_at env h t) r' range w'
          (omega (arith, length-remove t r.clients w.clients_once m)) in
      (s, rw (e, drain, removed) ran, IsDrained-step o env h r t s.0 s.1 m d)
]

-- What a wake-up of the goroutine leaves: the list whole and within its bound, every client at its
-- index, and every client outside the list as it was.
pub record IsWoken (o : Options) (h : Heap) (r : Recycle) (s : Heap × Recycle) : Type 0 where
  pub whole : IsWhole s.0 s.1
  pub bounded : IsBounded o s.1
  pub index : (t : ℕ) → (s.0 t).index ≡ (h t).index
  pub others : (t : ℕ) → elem t r.clients ≡ false → s.0 t ≡ h t
  pub fewer : (t : ℕ) → elem t s.1.clients ≡ true → elem t r.clients ≡ true

drained-IsWoken :
    (o : Options) (env : Env) (h : Heap) (r : Recycle) (tokens : ℕ) (s : Heap × Recycle)
    → IsDrained o env h (record r { tokens = tokens }) s.0 s.1
    → tokens ≤ r.capacity
    → r.capacity ≡ min (o.max_cap * 10) 2000
    → IsWoken o h r s
drained-IsWoken o env h r tokens s d b c = record {
  whole = d.whole;
  bounded = record {
    listed = omega (arith, d.fits);
    buffered = omega (arith, d.tokens, d.capacity, b);
    capped = d.capacity ∙ c;
  };
  index = λ t. ap (λ (c : Client). c.index) (d.effect t) ∙ ground (arith, close-index env (h t));
  others = λ t e. d.effect t ∙ ground (arith, d.fewer t);
  fewer = d.fewer;
}

-- Every wake-up of the goroutine ends.
pub wake-IsWoken :
    (o : Options) (env : Env) (e : Wake) (h : Heap) (r : Recycle)
    → IsRange env.range
    → IsWhole h r
    → IsBounded o r
    → (s : Heap × Recycle) × (wake o env e (h, r) ≡ some s) × IsWoken o h r s
unfolding wake drain_all
wake-IsWoken o env ticked h r range w b =
    let (s, ran, d) = drain-IsDrained (suc (length r.clients)) o env h r range w (omega arith) in
    (s, ran, drained-IsWoken o env h r r.tokens s d b.buffered b.capped)
wake-IsWoken o env queued h r range w b =
    let r' = record r { tokens = r.tokens - 1 } in
    let w' : IsWhole h r' = record {
      same = w.same;
      clients_once = w.clients_once;
      keys_once = w.keys_once;
      handled = w.handled;
    } in
    elim (Bool-cases (leb (length r.clients) o.max_cap)) [
      | inl e ↦ (
        (h, r'),
        rw e,
        record {
          whole = w';
          bounded = record {
            listed = ground arith;
            buffered = omega (arith, b.buffered);
            capped = b.capped;
          };
          index = λ t. refl;
          others = λ t m. refl;
          fewer = λ t m. m;
        },
      )
      | inr e ↦
          let (s, ran, d) =
            drain-IsDrained (suc (length r.clients)) o env h r' range w' (omega arith) in
          (
            s,
            rw e ran,
            drained-IsWoken o env h r (r.tokens - 1) s d (omega (arith, b.buffered)) b.capped,
          )
    ]
