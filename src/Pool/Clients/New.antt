-- ===== src/Pool/Clients/New.antt =====
-- `new_clients` of gokit/transport/pool/pool.go makes an open pool with no connection.
use jkfr.Prelude.{
  ℕ, zero, suc, ◌+◌, ◌≤◌, ◌≡◌, refl, ap, ◌∙◌, some, arith, length, get_elem?, get_elem?-lt, elem,
}
use jkfr.Pool.Options.{Options}
use jkfr.Pool.Client.{Client, Heap, update, new_client}
use jkfr.Pool.Recycle.{new_recycle}
use jkfr.Pool.Clients.{make_slots, new_clients}
use jkfr.Pool.Clients.Keep.{IsOpen}

-- The older clients are as they were.
make_slots-old : (n i : ℕ) (h : Heap) (tag p : ℕ) → p ≤ tag → (make_slots n i h tag).0 p ≡ h p
unfolding make_slots
make_slots-old zero i h tag p l = refl
make_slots-old (suc n) i h tag p l =
    make_slots-old n (suc i) (update h (suc tag) (new_client i)) (suc tag) p (omega arith)
    ∙ ground arith

pub make_slots-length :
    (n i : ℕ) (h : Heap) (tag : ℕ)
    → (length (make_slots n i h tag).2 ≡ n) × ((make_slots n i h tag).1 ≡ tag + n)
unfolding make_slots
make_slots-length zero i h tag = (refl, omega arith)
make_slots-length (suc n) i h tag =
    let rest = make_slots-length n (suc i) (update h (suc tag) (new_client i)) (suc tag) in
    (ap suc rest.0, omega (arith, rest.1))

-- Slot `j` holds a fresh client that knows its slot.
pub make_slots-new :
    (n i : ℕ) (h : Heap) (tag j p : ℕ)
    → get_elem? (make_slots n i h tag).2 j ≡ some p
    → (p ≡ suc (tag + j)) × ((make_slots n i h tag).0 p ≡ new_client (i + j))
unfolding make_slots
make_slots-new zero i h tag j p e = ground arith
make_slots-new (suc n) i h tag zero p e =
    let p≡ : p ≡ suc tag = ground arith in
    (
      omega arith,
      make_slots-old n (suc i) (update h (suc tag) (new_client i)) (suc tag) p (omega arith)
          ∙ ground arith,
    )
make_slots-new (suc n) i h tag (suc j) p e =
    let rest = make_slots-new n (suc i) (update h (suc tag) (new_client i)) (suc tag) j p e in
    (omega (arith, rest.0), rest.1 ∙ ap new_client (omega arith))

-- A new pool meets the invariant.
pub new_clients-IsOpen : (o : Options) (h : Heap) (tag : ℕ) → IsOpen (new_clients o h tag)
unfolding new_clients new_recycle elem
new_clients-IsOpen o h tag =
    let size = make_slots-length o.max_cap 0 h tag in
    let fresh = λ (j p : ℕ). make_slots-new o.max_cap 0 h tag j p in
    let bound = λ (j p : ℕ). get_elem?-lt (make_slots o.max_cap 0 h tag).2 j p in
    record {
      opened = refl;
      list = new_recycle o;
      recycling = refl;
      whole = record { same = λ t. refl; clients_once = tt; keys_once = tt; handled = λ t m. cc };
      bounded = record { listed = omega arith; buffered = omega arith; capped = refl };
      sound = record {
        sized = size.0;
        slots = λ i p e. (
          omega (arith, ap (λ (c : Client). c.index) (fresh i p e).1),
          omega (arith, (fresh i p e).0, bound i p e, size.0, size.1),
        );
        live = λ p m. cc;
        listed = λ i p e q. ground (arith, ap (λ (c : Client). c.conn) (fresh i p e).1);
        once = tt;
        apart = λ p m. cc;
      };
    }
