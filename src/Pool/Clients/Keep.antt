-- ===== src/Pool/Clients/Keep.antt =====
-- The methods of `clients` in gokit/transport/pool/pool.go keep its invariant while the pool is open.
use jkfr.Prelude.{
  ℕ, zero, suc, ◌<◌, ◌≡◌, refl, sym, ap, subst, ◌∙◌, ◌⊎◌, inl, inr, Bool, true, false, none, some,
  List, [], ◌∷◌, arith, ◌==◌, if◌then◌else◌, is_some, length, get_elem?, get_elem?-set, take, drop,
  set, elem, Bool-cases, Option-cases,
}
use jkfr.Pool.Client.{Client, Env, Heap, Connected, update, is_open, IsFactory}
use jkfr.Pool.Client.Dial.{Ending, refused, kept, limited, broken, opened, connect-Ending}
use jkfr.Pool.Recycle.{Recycle}
use jkfr.Pool.Recycle.Invariant.{IsWhole, IsBounded}
use jkfr.Pool.Clients.{
  Clients, push_client, init_with, init_one, init_slots, init_clients, init_end, flagged, Outcome,
}
use jkfr.Pool.Clients.Slots.{IsSound, IsSound-frame, IsSound-connect, own_slot}

-- An open pool: its slots and its recycle list are sound.
pub record IsOpen (s : Clients) : Type 0 where
  pub opened : s.is_close ≡ false
  pub list : Recycle
  pub recycling : s.recycle ≡ some list
  pub whole : IsWhole s.heap list
  pub bounded : IsBounded s.o list
  pub sound : IsSound s.o s.heap s.tag s.cs s.pc2c list.clients

pub IsWhole-frame :
    (h h' : Heap) (r : Recycle)
    → ((t : ℕ) → elem t r.clients ≡ true → is_some (h' t).handle ≡ is_some (h t).handle)
    → IsWhole h r
    → IsWhole h' r
IsWhole-frame h h' r same w = record {
  same = w.same;
  clients_once = w.clients_once;
  keys_once = w.keys_once;
  handled = λ t m. same t m ∙ w.handled t m;
}

module _ (s : Clients) (v : IsOpen s) (i p : ℕ) (at : get_elem? s.cs i ≡ some p) where
  -- The client of a slot waits in no list.
  slot-apart : (t : ℕ) → elem t v.list.clients ≡ true → (p == t) ≡ false
  slot-apart t m = elim (Bool-cases (p == t)) [
    | inl e ↦
        let p≡t : p ≡ t = ground arith in
        absurd (
          (v.sound.apart t m).0 (
            subst (λ u. get_elem? s.cs (s.heap u).index ≡ some u) p≡t
              (own_slot _ _ _ _ _ _ i p at v.sound)))
    | inr e ↦ e
  ]

  slot-IsWhole : (c : Client) → IsWhole (update s.heap p c) v.list
  slot-IsWhole c = IsWhole-frame s.heap _ v.list (λ t m. rw (slot-apart t m)) v.whole

  -- A change to a slot's client that neither connects nor disconnects it.
  pub edit_slot-IsOpen :
      (c : Client)
      → c.index ≡ (s.heap p).index
      → is_open c ≡ is_open (s.heap p)
      → IsOpen (record s { heap = update s.heap p c })
  edit_slot-IsOpen c same_index same_open = record {
    opened = v.opened;
    list = v.list;
    recycling = v.recycling;
    whole = slot-IsWhole c;
    bounded = v.bounded;
    sound =
        IsSound-frame s.o s.heap s.tag s.cs s.pc2c v.list.clients _ v.list.clients
          (λ q. at_index q (p == q) refl) (λ q e. at_open q (p == q) refl) (λ q m. m) v.sound;
  }
    where
      at_index :
          (q : ℕ) (b : Bool) → (p == q) ≡ b → (if b then c else s.heap q).index ≡ (s.heap q).index
      at_index q true e =
          let p≡q : p ≡ q = ground arith in same_index ∙ ap (λ (u : ℕ). (s.heap u).index) p≡q
      at_index q false e = refl

      at_open :
          (q : ℕ) (b : Bool)
          → (p == q) ≡ b
          → is_open (if b then c else s.heap q) ≡ is_open (s.heap q)
      at_open q true e =
          let p≡q : p ≡ q = ground arith in same_open ∙ ap (λ (u : ℕ). is_open (s.heap u)) p≡q
      at_open q false e = refl

  -- The client of a slot has been connected, and is put in the map.
  pub connected-IsOpen :
      (env : Env) (c : Client)
      → c.index ≡ (s.heap p).index
      → is_open c ≡ true
      → IsOpen (push_client env (record s { heap = update s.heap p c }) p)
  unfolding push_client
  connected-IsOpen env c same_index is_up =
      rw (v.opened, push_client)
        (record {
          opened = refl;
          list = v.list;
          recycling = v.recycling;
          whole = slot-IsWhole c;
          bounded = v.bounded;
          sound =
              IsSound-connect s.o s.heap s.tag s.cs s.pc2c v.list.clients i p c at same_index is_up
                v.sound;
        })

-- The factory keeps to its contract for every client.
abbrev pub Factories : Env → Type 0
Factories env = (t : ℕ) → IsFactory (env.dial t)

-- What a connection attempt at a slot, with the push that follows a new connection, comes to.
abbrev pub settle : Env → Clients → ℕ → Connected → Clients
settle env s p (c, fresh, e) =
    let s' = record s { heap = update s.heap p c } in if fresh then push_client env s' p else s'

pub settle-IsOpen :
    (env : Env) (s : Clients) (i p : ℕ) (r : Connected)
    → IsOpen s
    → get_elem? s.cs i ≡ some p
    → Ending env p (s.heap p) r
    → IsOpen (settle env s p r)
settle-IsOpen env s i p r v at (refused d) = edit_slot-IsOpen s v i p at _ refl refl
settle-IsOpen env s i p r v at (kept a o) = edit_slot-IsOpen s v i p at _ refl refl
settle-IsOpen env s i p r v at (limited a o l) = edit_slot-IsOpen s v i p at _ refl refl
settle-IsOpen env s i p r v at (broken c' o o' x f t e d) =
    edit_slot-IsOpen s v i p at c' x (o' ∙ sym o.unconnected)
settle-IsOpen env s i p r v at (opened c' o n o' x f d) = connected-IsOpen s v i p at env c' x o'

-- A new connection comes without an error.
pub fresh-no_error :
    {env : Env} {p : ℕ} {c : Client} {r : Connected}
    → Ending env p c r
    → (r.1 ≡ false) ⊎ (r.2 ≡ none)
fresh-no_error (refused d) = inl refl
fresh-no_error (kept a o) = inl refl
fresh-no_error (limited a o l) = inl refl
fresh-no_error (broken c' o o' x f t e d) = inl refl
fresh-no_error (opened c' o n o' x f d) = inr refl

init_with-settle :
    (env : Env) (s : Clients) (p : ℕ) (r : Connected)
    → (r.1 ≡ false) ⊎ (r.2 ≡ none)
    → (init_with env s p r).0 ≡ settle env s p r
unfolding init_with
init_with-settle env s p (c, fresh, none) h = refl
init_with-settle env s p (c, fresh, some e) (inl h) = rw h
init_with-settle env s p (c, fresh, some e) (inr h) = cc

-- `ps` are the clients of the slots from `j` on.
abbrev pub InSlots : List ℕ → ℕ → List ℕ → Type 0
InSlots cs j [] = Unit {0}
InSlots cs j (p ∷ ps) = (get_elem? cs j ≡ some p) × InSlots cs (suc j) ps

InSlots-cons :
    (x : ℕ) (cs : List ℕ) (j : ℕ) (ps : List ℕ) → InSlots cs j ps → InSlots (x ∷ cs) (suc j) ps
InSlots-cons x cs j [] h = tt
InSlots-cons x cs j (p ∷ ps) h = (h.0, InSlots-cons x cs (suc j) ps h.1)

pub InSlots-all : (cs : List ℕ) → InSlots cs 0 cs
InSlots-all [] = tt
InSlots-all (x ∷ cs) = (refl, InSlots-cons x cs 0 cs (InSlots-all cs))

pub InSlots-drop : (n : ℕ) (cs : List ℕ) → InSlots cs n (drop n cs)
InSlots-drop zero cs = InSlots-all cs
InSlots-drop (suc n) [] = tt
InSlots-drop (suc n) (x ∷ cs) = InSlots-cons x cs n (drop n cs) (InSlots-drop n cs)

pub InSlots-take : (n : ℕ) (cs : List ℕ) → InSlots cs 0 (take n cs)
InSlots-take zero cs = tt
InSlots-take (suc n) [] = tt
InSlots-take (suc n) (x ∷ cs) = (refl, InSlots-cons x cs 0 (take n cs) (InSlots-take n cs))

pub InSlots-set :
    (cs : List ℕ) (i n j : ℕ) (ps : List ℕ)
    → i < length cs
    → i < j
    → InSlots cs j ps
    → InSlots (set cs i n) j ps
InSlots-set cs i n j [] l o h = tt
InSlots-set cs i n j (p ∷ ps) l o h =
    (ground (arith, get_elem?-set cs i j n, h.0), InSlots-set cs i n (suc j) ps l (omega arith) h.1)

flagged-IsOpen : (s : Clients) → IsOpen s → IsOpen (flagged s)
flagged-IsOpen s v = record {
  opened = v.opened;
  list = v.list;
  recycling = v.recycling;
  whole = v.whole;
  bounded = v.bounded;
  sound = v.sound;
}

init_end-IsOpen : (r : Outcome) → IsOpen r.0 → IsOpen (init_end r).0
init_end-IsOpen (s, some e) v = v
init_end-IsOpen (s, none) v = record {
  opened = v.opened;
  list = v.list;
  recycling = v.recycling;
  whole = v.whole;
  bounded = v.bounded;
  sound = v.sound;
}

pub either-IsOpen :
    (b : Bool) (r r' : Outcome) → IsOpen r.0 → IsOpen r'.0 → IsOpen (if b then r else r').0
either-IsOpen true r r' v v' = v
either-IsOpen false r r' v v' = v'

module _ (env : Env) (fs : Factories env) where
  init_one-IsOpen :
      (s : Clients) (i p : ℕ) → IsOpen s → get_elem? s.cs i ≡ some p → IsOpen (init_one env s p).0
  unfolding init_one
  init_one-IsOpen s i p v at =
      let ending = connect-Ending env p (s.heap p) (fs p) in
      either-IsOpen (is_open (s.heap p)) _ _ v (
        subst IsOpen (sym (init_with-settle env s p _ (fresh-no_error ending)))
          (settle-IsOpen env s i p _ v at ending))

  pub init_one-cs : (s : Clients) (p : ℕ) → (init_one env s p).0.cs ≡ s.cs
  unfolding init_one init_with push_client
  init_one-cs s p = ground arith

  pub init_slots-IsOpen :
      (s : Clients) (j : ℕ) (ps : List ℕ)
      → IsOpen s
      → InSlots s.cs j ps
      → IsOpen (init_slots env s ps).0
  unfolding init_slots
  init_slots-IsOpen s j [] v a = v
  init_slots-IsOpen s j (p ∷ ps) v a = elim (Option-cases (init_one env s p).1) [
    | inl e ↦
        rw (e, init_slots)
          (init_slots-IsOpen (init_one env s p).0 (suc j) ps (init_one-IsOpen s j p v a.0)
            (rw (init_one-cs s p) a.1))
    | inr (x, e) ↦ rw (e, init_slots) (init_one-IsOpen s j p v a.0)
  ]

  -- init_clients keeps the invariant, whether it succeeds or fails.
  pub init_clients-IsOpen : (s : Clients) → IsOpen s → IsOpen (init_clients env s).0
  unfolding init_clients
  init_clients-IsOpen s v = either-IsOpen s.initting _ _ v (
      init_end-IsOpen _ (
        init_slots-IsOpen (flagged s) 0 (take s.o.init_cap s.cs) (flagged-IsOpen s v)
          (InSlots-take s.o.init_cap s.cs)))

  init_slots-cs : (s : Clients) (ps : List ℕ) → (init_slots env s ps).0.cs ≡ s.cs
  unfolding init_slots
  init_slots-cs s [] = refl
  init_slots-cs s (p ∷ ps) = elim (Option-cases (init_one env s p).1) [
    | inl e ↦ rw (e, init_slots) (init_slots-cs (init_one env s p).0 ps ∙ init_one-cs s p)
    | inr (x, e) ↦ rw (e, init_slots) (init_one-cs s p)
  ]

  pub init_clients-cs : (s : Clients) → (init_clients env s).0.cs ≡ s.cs
  unfolding init_clients
  init_clients-cs s = either s.initting
    where
      ended : (r : Outcome) → (init_end r).0.cs ≡ r.0.cs
      ended (t, some x) = refl
      ended (t, none) = refl

      either :
          (b : Bool)
          → (if◌then◌else◌ {A = Outcome} b
              (s, none)
              (init_end (init_slots env (flagged s) (take s.o.init_cap s.cs)))).0.cs
            ≡ s.cs
      either true = refl
      either false = ended _ ∙ init_slots-cs (flagged s) (take s.o.init_cap s.cs)
