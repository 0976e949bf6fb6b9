-- ===== src/Environ/Tests.antt =====
-- Variables as os/env.go reads them.
use jkfr.Prelude.{◌≡◌, refl, true, false, [], ◌∷◌, pos}
use jkfr.HostAddr.{Text, read_digits, atoi}
use jkfr.Environ.{
  Environment, trim_left, get_env_string, split_by, trimmed, get_env_strings, get_env_int, integers,
  get_env_ints, is_lower_text, get_env_bool,
}

what_runs : Unit {0}
unfolding trim_left get_env_string split_by trimmed get_env_strings get_env_int integers
    get_env_ints is_lower_text get_env_bool read_digits atoi
what_runs = tt

-- Every variable is " 7, ,x ", or " True".
abbrev listed : Environment Text
listed key = 32 ∷ 55 ∷ 44 ∷ 32 ∷ 44 ∷ 120 ∷ 32 ∷ []

abbrev truth : Environment Text
truth key = 32 ∷ 84 ∷ 114 ∷ 117 ∷ 101 ∷ []

strings_read : get_env_strings listed [] 44 [] ≡ (55 ∷ []) ∷ (120 ∷ []) ∷ []
unfolding what_runs
strings_read = refl

ints_read : get_env_ints listed [] 44 [] ≡ pos 7 ∷ []
unfolding what_runs
ints_read = refl

int_defaulted : get_env_int listed [] (pos 60) ≡ pos 60
unfolding what_runs
int_defaulted = refl

bool_read : get_env_bool truth [] false ≡ true
unfolding what_runs
bool_read = refl
