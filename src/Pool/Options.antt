-- ===== src/Pool/Options.antt =====
-- gokit/transport/pool/options.go, and the part of NewPool in pool.go that repairs the options.
-- Capacities are natural numbers: a negative `int` is below 1 and is repaired exactly as 0 is.
-- Durations are counted in nanoseconds and are not negative.
pub mod Repair
use jkfr.Prelude.{
  ℕ, ◌*◌, min, max, Bool, false, not, ◌||◌, Option, none, some, ltb, ◌==◌, if◌then◌else◌,
}

-- The errors that the package declares, and those of the dial and of the connections.
pub data Error : Type 0 where
  err_closed err_initing err_invalid err_rejected err_targets err_no_valid err_max : Error
  err_not_found : Error
  foreign : ℕ → Error

-- `Factory` is a function; only whether it is nil is read here, its answers come with each call.
pub record Options : Type 0 where
  pub init_cap : ℕ
  pub max_cap : ℕ
  pub dial_timeout : ℕ
  pub idle_timeout : ℕ
  pub read_timeout : ℕ
  pub write_timeout : ℕ
  pub has_factory : Bool

abbrev pub second : ℕ
second = 1_000_000_000

-- NewOptions; the caller sets the factory.
abbrev pub new_options : Options
new_options = record {
  init_cap = 2;
  max_cap = 16;
  dial_timeout = 10 * second;
  idle_timeout = 2 * 3600 * second;
  read_timeout = 60 * second;
  write_timeout = 60 * second;
  has_factory = false;
}

unfoldable pub validate : Options → Option Error
validate o =
    if o.init_cap == 0
      || o.max_cap == 0
      || ltb o.max_cap o.init_cap
      || o.dial_timeout == 0
      || o.read_timeout == 0
      || o.write_timeout == 0
      || not o.has_factory
    then some err_invalid
    else none

-- NewPool: `if o.InitCap < 1 { o.InitCap = 1 }`.
abbrev pub fix_init : Options → Options
fix_init o = if ltb o.init_cap 1 then record o { init_cap = 1 } else o

-- NewPool: a MaxCap below InitCap becomes ten times InitCap, at most 32, but never below InitCap.
abbrev pub fix_max : Options → Options
fix_max o =
    if ltb o.max_cap o.init_cap
    then record o { max_cap = max (min (o.init_cap * 10) 32) o.init_cap }
    else o

unfoldable pub repair : Options → Options
repair o = fix_max (fix_init o)
