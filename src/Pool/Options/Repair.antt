-- ===== src/Pool/Options/Repair.antt =====
-- NewPool of gokit/transport/pool/pool.go and validate of gokit/transport/pool/options.go.
use jkfr.Prelude.{max, ◌≤◌, ◌≡◌, ◌↔◌, true, none, arith}
use jkfr.Pool.Options.{Options, validate, repair}

-- The repaired options have an InitCap of at least 1, and a MaxCap of at least InitCap and at most the
-- greatest of the MaxCap given, 32 and InitCap; options whose capacities need no repair stay as they
-- are.
pub repair_bounds :
    (o : Options)
    → (1 ≤ (repair o).init_cap)
      × ((repair o).init_cap ≤ (repair o).max_cap)
      × ((repair o).max_cap ≤ max o.max_cap (max 32 (repair o).init_cap))
      × (1 ≤ o.init_cap → o.init_cap ≤ o.max_cap → repair o ≡ o)
unfolding repair
repair_bounds o = (ground arith, ground arith, ground arith, λ p q. ground arith)

-- Repaired options are valid exactly if the dial, read and write timeouts are not zero and there is a
-- factory, whatever the capacities were.
pub validate-repair :
    (o : Options)
    → (validate (repair o) ≡ none) ↔ (
        (1 ≤ o.dial_timeout)
        × (1 ≤ o.read_timeout)
        × (1 ≤ o.write_timeout)
        × (o.has_factory ≡ true))
unfolding validate repair
validate-repair o = (λ e. ground arith, λ h. ground arith)
