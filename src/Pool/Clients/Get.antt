-- ===== src/Pool/Clients/Get.antt =====
-- `get` of `clients` in gokit/transport/pool/pool.go.
use jkfr.Prelude.{
  ℕ, ◌<◌, ◌≡◌, refl, sym, ap, subst, ◌∙◌, ◌⊎◌, inl, inr, true, false, Option, none, some, List, [],
  ◌∷◌, arith, leb, length, get_elem?, get_elem?-some, get_elem?-elem, take, elem, elem-insert,
  ltb_ℤ, Bool-cases, Option-cases,
}
use jkfr.Pool.Options.{Error}
use jkfr.Pool.Client.{Client, Connected, Env, Heap, connect, is_open, IsRange}
use jkfr.Pool.Client.Dial.{Ending, refused, kept, limited, broken, opened, connect-Ending}
use jkfr.Pool.Recycle
use jkfr.Pool.Clients.{
  Clients, got, failed, push_client, get_one_valid_client, answer, get_chosen, get_from, get,
  choose, round_get, max_int64, first_idle,
}
use jkfr.Pool.Clients.Keep.{IsOpen, Factories, settle, settle-IsOpen, fresh-no_error}
use jkfr.Pool.Clients.Choice.{min_get-Chosen, Chosen-slot, round_get-slot, min_get-in, round_get-in}

answer-settle :
    (env : Env) (s : Clients) (p : ℕ) (c : Connected)
    → (c.1 ≡ false) ⊎ (c.2 ≡ none)
    → (answer env s p c).0 ≡ settle env s p c
unfolding answer
answer-settle env s p (c, fresh, none) h = refl
answer-settle env s p (c, fresh, some e) (inr h) = cc
answer-settle env s p (c, fresh, some e) (inl h) =
    elim (Option-cases (get_one_valid_client env s)) [
      | inl v ↦ rw (v, answer, h)
      | inr (q, v) ↦ rw (v, answer)
    ]

round_get-IsOpen : (s : Clients) → IsOpen s → IsOpen (round_get s).0
unfolding round_get
round_get-IsOpen s v = elim (Option-cases (first_idle s.heap (take s.o.init_cap s.cs))) [
  | inl e ↦
      rw (e, round_get)
        (record {
          opened = v.opened;
          list = v.list;
          recycling = v.recycling;
          whole = v.whole;
          bounded = v.bounded;
          sound = v.sound;
        })
  | inr (p, e) ↦ rw (e, round_get) v
]

round_get-cs : (s : Clients) → (round_get s).0.cs ≡ s.cs
unfolding round_get
round_get-cs s = ground arith

module _ (env : Env) (fs : Factories env) where
  get_chosen-IsOpen :
      (s : Clients) (i p : ℕ) → IsOpen s → get_elem? s.cs i ≡ some p → IsOpen (get_chosen env s p).0
  unfolding get_chosen
  get_chosen-IsOpen s i p v at =
      let ending = connect-Ending env p (s.heap p) (fs p) in
      subst IsOpen (sym (answer-settle env s p _ (fresh-no_error ending)))
        (settle-IsOpen env s i p _ v at ending)

-- A pool has a slot, and no slot is used as often as an int64 can count.
pub record IsUsable (s : Clients) : Type 0 where
  pub slotted : 0 < length s.cs
  pub countable : (p : ℕ) → elem p s.cs ≡ true → ltb_ℤ (s.heap p).ref max_int64 ≡ true

choose-slot :
    (s : Clients)
    → IsOpen s
    → IsUsable s
    → (p i : ℕ) × ((choose s).1 ≡ some p) × (get_elem? s.cs i ≡ some p)
choose-slot s v u = elim (Bool-cases (leb s.o.max_cap 100)) [
  | inl e ↦
      let (x, at) = get_elem?-some s.cs 0 u.slotted in
      let held = get_elem?-elem s.cs 0 x at in
      let (p, i, chosen, slot) =
        Chosen-slot (min_get-Chosen s x v.sound.sized held (u.countable x held)) in
      (p, i, rw e chosen, slot)
  | inr e ↦ let (p, i, chosen, slot) = round_get-slot s u.slotted in (p, i, rw e chosen, slot)
]

choose-IsOpen : (s : Clients) → IsOpen s → IsOpen (choose s).0
choose-IsOpen s v = elim (Bool-cases (leb s.o.max_cap 100)) [
  | inl e ↦ rw e v
  | inr e ↦ rw e (round_get-IsOpen s v)
]

pub choose-kept :
    (s : Clients)
    → ((choose s).0.cs ≡ s.cs) × ((choose s).0.heap ≡ s.heap) × ((choose s).0.pc2c ≡ s.pc2c)
unfolding round_get
choose-kept s = ground arith

choose-in : (s : Clients) (p : ℕ) → (choose s).1 ≡ some p → (i : ℕ) × (get_elem? s.cs i ≡ some p)
choose-in s p e = elim (Bool-cases (leb s.o.max_cap 100)) [
  | inl b ↦ min_get-in s p (rw b at e)
  | inr b ↦ round_get-in s p (rw b at e)
]

-- get keeps the invariant, whichever slot it takes and however the dial ends.
pub get-IsOpen : (env : Env) (s : Clients) → Factories env → IsOpen s → IsOpen (get env s).0
unfolding get
get-IsOpen env s fs v = go ((choose s).1) refl
  where
    go : (o : Option ℕ) → (choose s).1 ≡ o → IsOpen (get_from env (choose s).0 o).0
    go none e = choose-IsOpen s v
    go (some p) e =
        let (i, at) = choose-in s p e in
        get_chosen-IsOpen env fs (choose s).0 i p (choose-IsOpen s v)
          (ap (λ (cs : List ℕ). get_elem? cs i) (choose-kept s).0 ∙ at)

front?-none : (xs : List ℕ) → ((q : ℕ) → elem q xs ≡ false) → Recycle.front? xs ≡ none
unfolding elem
front?-none [] h = refl
front?-none (x ∷ xs) h = ground (arith, h x)

front?-some : (xs : List ℕ) (y : ℕ) → elem y xs ≡ true → (q : ℕ) × (Recycle.front? xs ≡ some q)
unfolding elem
front?-some [] y h = cc
front?-some (x ∷ xs) y h = (x, refl)

-- Connect returns an error only with a client that is not connected, unless that was destroyed.
error-closed :
    {env : Env} {p : ℕ} {c : Client} {r : Connected} {e : Error}
    → Ending env p c r
    → c.destroyed ≡ false
    → r.2 ≡ some e
    → (is_open r.0 ≡ false) × (r.1 ≡ false)
error-closed (refused d) h x = cc
error-closed (kept a o) h x = cc
error-closed (limited a o l) h x = (o, refl)
error-closed (broken c' o o' i f t e d) h x = (o', refl)
error-closed (opened c' o n o' i f d) h x = cc

answer-ready :
    (env : Env) (s : Clients) (i p : ℕ) (r : Connected)
    → IsOpen s
    → get_elem? s.cs i ≡ some p
    → Ending env p (s.heap p) r
    → is_open r.0 ≡ true
    → r.2 ≡ none
    → ((answer env s p r).1 ≡ got p)
      × (is_open ((answer env s p r).0.heap p) ≡ true)
      × (elem p (answer env s p r).0.pc2c ≡ true)
unfolding answer push_client
answer-ready env s i p r v at (refused d) o e = cc
answer-ready env s i p r v at (kept a q) o e = (refl, ground arith, v.sound.listed i p at q)
answer-ready env s i p r v at (limited a q l) o e = cc
answer-ready env s i p r v at (broken c' q q' x f t y d) o e = cc
answer-ready env s i p r v at (opened c' q n q' x f d) o e =
    (refl, ground (arith, v.opened), ground (arith, v.opened, elem-insert p p s.pc2c))

module _ (env : Env) (s : Clients) (p : ℕ) (chosen : (choose s).1 ≡ some p) where
  get-answer : get env s ≡ answer env (choose s).0 p (connect env p (s.heap p))
  unfolding get get_chosen
  get-answer = rw (chosen, get, ap (λ (h : Heap). h p) (choose-kept s).1)

  valid-kept : get_one_valid_client env (choose s).0 ≡ get_one_valid_client env s
  unfolding get_one_valid_client
  valid-kept = rw (choose-kept s).2

  -- In a sound pool with factories that keep to their contract, a chosen client that Connect leaves
  -- connected, without an error, is what get returns: connected, and in the map.
  pub get_ready :
      Factories env
      → IsOpen s
      → is_open (connect env p (s.heap p)).0 ≡ true
      → (connect env p (s.heap p)).2 ≡ none
      → ((get env s).1 ≡ got p)
        × (is_open ((get env s).0.heap p) ≡ true)
        × (elem p (get env s).0.pc2c ≡ true)
  unfolding answer push_client
  get_ready fs v o e =
      let (i, at) = choose-in s p chosen in
      rw get-answer (
        answer-ready env (choose s).0 i p (connect env p (s.heap p)) (choose-IsOpen s v)
          (ap (λ (cs : List ℕ). get_elem? cs i) (choose-kept s).0 ∙ at)
          (subst (λ h. Ending env p (h p) (connect env p (s.heap p))) (sym (choose-kept s).1)
            (connect-Ending env p (s.heap p) (fs p)))
          o e)

  -- Where Connect fails at the chosen client and the map of connected clients is empty, get returns
  -- Connect's error.
  get_refused :
      (e : Error)
      → IsRange env.range
      → (connect env p (s.heap p)).2 ≡ some e
      → s.pc2c ≡ []
      → (get env s).1 ≡ failed e
  unfolding answer get_one_valid_client elem
  get_refused e range q empty =
      let none_there = front?-none (env.range s.pc2c) (λ t. range s.pc2c t ∙ rw empty) in
      rw (get-answer, q, answer, valid-kept) (rw none_there)

  -- Where Connect fails at the chosen client, which has not been destroyed, and the map has a connected
  -- client, get returns the chosen client without an error, though it is not connected.
  pub get_unconnected :
      (e : Error) (q : ℕ)
      → Factories env
      → IsRange env.range
      → (s.heap p).destroyed ≡ false
      → (connect env p (s.heap p)).2 ≡ some e
      → elem q s.pc2c ≡ true
      → ((get env s).1 ≡ got p) × (is_open ((get env s).0.heap p) ≡ false)
  unfolding answer get_one_valid_client
  get_unconnected e q fs range d x m =
      let (other, found) = front?-some (env.range s.pc2c) q (range s.pc2c q ∙ m) in
      let shut = error-closed (connect-Ending env p (s.heap p) (fs p)) d x in
      rw (get-answer, x, answer, valid-kept) (rw (found, shut.1) (refl, ground (arith, shut.0)))
