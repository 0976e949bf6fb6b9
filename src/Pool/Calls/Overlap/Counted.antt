-- ===== src/Pool/Calls/Overlap/Counted.antt =====
-- ValidCount of gokit/transport/pool/pool.go while calls overlap.
use jkfr.Prelude.{
  ℕ, suc, ◌+◌, ◌-◌, ◌≤◌, ◌≡◌, refl, ap, ◌∙◌, ◌⊎◌, inl, inr, Bool, true, false, ◌||◌, Option, none,
  some, List, [], ◌∷◌, ◌++◌, arith, ltb, ◌==◌, if◌then◌else◌, is_some, length, get_elem?, elem,
  remove, insert, elem-remove, elem-insert, elem-append, NoDup, length-append, length-remove-le,
  Bool-cases, Option-cases, elem-get_elem?, leb, take, ◌%◌, ◌^◌,
}
use jkfr.Pool.Options.{Options, Error, second}
use jkfr.Pool.Client.{
  Client, Dialed, Connected, Env, Heap, update, is_open, connect_locked, dialed, close, add_ref,
  IsFactory,
}
use jkfr.Pool.Clients.{
  Clients, push_client, choose, min_get, round_get, first_idle, valid_count, new_clients, written,
}
use jkfr.Pool.Recycle.Effect.{close-is_closed}
use jkfr.Pool.Clients.Keep.{Factories, InSlots-all}
use jkfr.Pool.Clients.New.{new_clients-IsOpen}
use jkfr.Pool.Calls.{edit}
use jkfr.Pool.Calls.Count.{open_slots, slots-NoDup, open_slots-elem, open_slots-NoDup}
use jkfr.Pool.Calls.Overlap.Covered.{
  IsCovered, edit-IsCovered, close-IsCovered, move_recycle-IsCovered, remove_if_idle-IsCovered,
}
use jkfr.Pool.Calls.Overlap.{
  Overlap, Section, chooses, dials, enters, uses, counts, moves, shuts, clears, flags, receives,
  passes, takes, rests, Mixed, here, next, begun, dial_at, fresh_first,
}

-- What Connect under its lock may do: a client that is connected now was so before, or is new.
record IsDialed (c : Client) (r : Connected) : Type 0 where
  same : r.0.index ≡ c.index
  known : is_open r.0 ≡ true → (is_open c ≡ true) ⊎ (r.1 ≡ true)

left_alone : (c : Client) (e : Option Error) → IsDialed c (c, false, e)
left_alone c e = record { same = refl; known = λ up. inl up }

dialed-IsDialed : (env : Env) (c : Client) (d : Dialed) → IsFactory d → IsDialed c (dialed env c d)
unfolding dialed
dialed-IsDialed env c d f = elim (Option-cases d.err) [
  | inl e ↦ rw (e, dialed) (record { same = refl; known = λ up. inr refl })
  | inr (x, e) ↦
      rw (e, dialed) (record { same = refl; known = λ up. absurd (ground (arith, f, e, up)) })
]

connect_locked-IsDialed :
    (env : Env) (p : ℕ) (c : Client) → IsFactory (env.dial p) → IsDialed c (connect_locked env p c)
unfolding connect_locked
connect_locked-IsDialed env p c f =
    by (is_some c.conn) c.destroyed (ltb (env.now - c.conn_tm) second)
  where
    by :
        (up gone soon : Bool)
        → IsDialed c (
            if◌then◌else◌ {A = Connected} up
              (c, false, none)
              (if gone
                then (c, false, some jkfr.Pool.Options.err_closed)
                else if soon
                then (c, false, c.err)
                else dialed env c (env.dial p)))
    by true gone soon = left_alone c none
    by false true soon = left_alone c (some jkfr.Pool.Options.err_closed)
    by false false true = left_alone c c.err
    by false false false = dialed-IsDialed env c (env.dial p) f

settled-IsCovered :
    (s : Clients) (ps : List ℕ) (p : ℕ) (c : Client) (fresh : Bool) (e : Option Error)
    → IsDialed (s.heap p) (c, fresh, e)
    → IsCovered s ps
    → IsCovered (written s p c) (fresh_first fresh p ps)
unfolding elem
settled-IsCovered s ps p c false e d v = edit-IsCovered s ps p c d.same (λ up. was (d.known up)) v
  where
    was : (is_open (s.heap p) ≡ true) ⊎ (false ≡ true) → is_open (s.heap p) ≡ true
    was (inl up) = up
    was (inr never) = cc
settled-IsCovered s ps p c true e d v = record {
  slots = λ i q at. (index q (p == q) refl ∙ (v.slots i q at).0, (v.slots i q at).1);
  covered = λ i q at. up i q at (p == q) refl;
}
  where
    index : (q : ℕ) (b : Bool) → (p == q) ≡ b → (if b then c else s.heap q).index ≡ (s.heap q).index
    index q true t = let p≡q : p ≡ q = ground arith in d.same ∙ ap (λ (u : ℕ). (s.heap u).index) p≡q
    index q false t = refl

    up :
        (i q : ℕ)
        → get_elem? s.cs i ≡ some q
        → (b : Bool) → (p == q) ≡ b
        → is_open (if b then c else s.heap q) ≡ true
        → (elem q s.pc2c || elem q (p ∷ ps)) ≡ true
    up i q at true t o = ground arith
    up i q at false t o = ground (arith, v.covered i q at o)

dial_at-IsCovered :
    (env : Env) (x : Overlap) (p : ℕ)
    → Factories env
    → IsCovered x.clients x.unpushed
    → IsCovered (dial_at env x p).clients (dial_at env x p).unpushed
unfolding dial_at
dial_at-IsCovered env x p fs v =
    let r = connect_locked env p (x.clients.heap p) in
    settled-IsCovered x.clients x.unpushed p r.0 r.1 r.2
      (connect_locked-IsDialed env p (x.clients.heap p) (fs p)) v

push_client-IsCovered :
    (env : Env) (s : Clients) (p : ℕ) (all ps qs : List ℕ)
    → all ≡ ps ++ p ∷ qs
    → IsCovered s all
    → IsCovered (push_client env s p) (ps ++ qs)
unfolding push_client elem
push_client-IsCovered env s p all ps qs e v = by s.is_close
  where
    split : (q : ℕ) → elem q all ≡ (elem q ps || elem q (p ∷ qs))
    split q = ap (elem q) e ∙ elem-append q ps (p ∷ qs)

    w : IsCovered (edit s p (close env (s.heap p)).0) all
    w = close-IsCovered env s all p v

    closed :
        (q : ℕ)
        → is_open (update s.heap p (close env (s.heap p)).0 q) ≡ true
        → (b : Bool) → (p == q) ≡ b
        → (p == q) ≡ false
    closed q up false t = t
    closed q up true t = absurd (ground (arith, rw t at up, close-is_closed env (s.heap p)))

    by :
        (b : Bool)
        → IsCovered
            (if b then edit s p (close env (s.heap p)).0 else record s { pc2c = insert p s.pc2c })
            (ps ++ qs)
    by true = record {
      slots = w.slots;
      covered = λ i q at up.
          ground
            (arith, w.covered i q at up, closed q up (p == q) refl, split q, elem-append q ps qs);
    }
    by false = record {
      slots = v.slots;
      covered = λ i q at up.
          ground (arith, v.covered i q at up, split q, elem-insert p q s.pc2c, elem-append q ps qs);
    }

choose-IsCovered : (s : Clients) (ps : List ℕ) → IsCovered s ps → IsCovered (choose s).0 ps
unfolding round_get
choose-IsCovered s ps v = by (leb s.o.max_cap 100) (first_idle s.heap (take s.o.init_cap s.cs))
  where
    turned : IsCovered (record s { index = (s.index + 1) % 2 ^ 64 }) ps
    turned = record { slots = v.slots; covered = v.covered }

    by :
        (b : Bool) (o : Option ℕ)
        → IsCovered
            (if◌then◌else◌ {A = Clients × Option ℕ} b
              (s, min_get s)
              (elim o as (λ x. Clients × Option ℕ) [
                | some p ↦ (s, some p)
                | none ↦ (
                  record s { index = (s.index + 1) % 2 ^ 64 },
                  get_elem? s.cs (s.index % length s.cs),
                )
              ])).0
            ps
    by true o = v
    by false (some p) = v
    by false none = turned

Section-IsCovered :
    {x y : Overlap} → Section x y → IsCovered x.clients x.unpushed → IsCovered y.clients y.unpushed
unfolding add_ref
Section-IsCovered (chooses x) v = choose-IsCovered x.clients x.unpushed v
Section-IsCovered (dials env x p fs) v = dial_at-IsCovered env x p fs v
Section-IsCovered (enters env x p ps qs e) v =
    push_client-IsCovered env x.clients p x.unpushed ps qs e v
Section-IsCovered (uses env x p) v = edit-IsCovered x.clients x.unpushed p _ refl (λ up. up) v
Section-IsCovered (counts d x p) v = edit-IsCovered x.clients x.unpushed p _ refl (λ up. up) v
Section-IsCovered (moves env x p) v = move_recycle-IsCovered env x.clients x.unpushed p v
Section-IsCovered (shuts env x p) v = close-IsCovered env x.clients x.unpushed p v
Section-IsCovered (clears env x p) v = remove_if_idle-IsCovered env x.clients x.unpushed p v
Section-IsCovered (flags b x) v = record { slots = v.slots; covered = v.covered }
Section-IsCovered (receives x r at out some_token) v = record {
  slots = v.slots;
  covered = v.covered;
}
Section-IsCovered (passes x r at short) v = record { slots = v.slots; covered = v.covered }
Section-IsCovered (takes x r p at) v = record { slots = v.slots; covered = v.covered }
Section-IsCovered (rests env x r at none_left) v = record { slots = v.slots; covered = v.covered }

Mixed-IsCovered :
    {x y : Overlap} → Mixed x y → IsCovered x.clients x.unpushed → IsCovered y.clients y.unpushed
Mixed-IsCovered here v = v
Mixed-IsCovered (next m st) v = Section-IsCovered st (Mixed-IsCovered m v)

begun-IsCovered : (o : Options) (h : Heap) (tag : ℕ) → IsCovered (new_clients o h tag) []
begun-IsCovered o h tag =
    let v = new_clients-IsOpen o h tag in
    record {
      slots = v.sound.slots;
      covered = λ i p at up. ground (arith, v.sound.listed i p at up);
    }

length-remove-lt : (x : ℕ) (xs : List ℕ) → elem x xs ≡ true → suc (length (remove x xs)) ≤ length xs
unfolding elem remove
length-remove-lt x [] e = cc
length-remove-lt x (y ∷ ys) e = elim (Bool-cases (y == x)) [
  | inl t ↦ ground (arith, length-remove-le x ys)
  | inr t ↦ ground (arith, length-remove-lt x ys (ground arith))
]

-- A list without repetition inside another is no longer.
length-inside :
    (xs ys : List ℕ)
    → NoDup xs
    → ((y : ℕ) → elem y xs ≡ true → elem y ys ≡ true)
    → length xs ≤ length ys
unfolding elem
length-inside [] ys n h = omega arith
length-inside (x ∷ xs) ys n h = omega (
  arith,
  length-inside xs (remove x ys) n.1 (λ y e. ground (arith, elem-remove x y ys, h y)),
  length-remove-lt x ys (h x (ground arith)),
)

open_slots-le :
    (s : Clients) (ps : List ℕ)
    → IsCovered s ps
    → length (open_slots s.heap s.cs) ≤ valid_count s + length ps
unfolding valid_count
open_slots-le s ps v =
    let (once, _) =
      slots-NoDup s.heap s.cs s.cs 0 (λ i p e. (v.slots i p e).0) (InSlots-all s.cs) in
    let inside =
      length-inside (open_slots s.heap s.cs) (s.pc2c ++ ps) (open_slots-NoDup s.heap s.cs once)
        (λ q m.
          let (held, up) = open_slots-elem s.heap s.cs q m in
          let (i, at) = elem-get_elem? q s.cs held in
          elem-append q s.pc2c ps ∙ v.covered i q at up) in
    omega (arith, inside, length-append s.pc2c ps)

-- However the calls of a pool and its goroutines mix, from the start of NewPool until Close, with
-- factories that keep to their contract, ValidCount and the number of goroutines between a Connect that
-- made a connection and its push add up to at least the number of slots whose client is connected.
pub valid_count_covers :
    (o : Options) (h : Heap) (tag : ℕ) (x : Overlap)
    → Mixed (begun o h tag) x
    → length (open_slots x.clients.heap x.clients.cs) ≤ valid_count x.clients + length x.unpushed
valid_count_covers o h tag x m =
    open_slots-le x.clients x.unpushed (Mixed-IsCovered m (begun-IsCovered o h tag))
