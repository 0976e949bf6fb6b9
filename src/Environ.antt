-- ===== src/Environ.antt =====
-- os/env.go: settings from the variables of the process, with what they use of Go's strings. A variable
-- that is not set is empty.
mod Tests
use jkfr.Prelude.{
  ℕ, ◌+◌, Bool, true, false, not, ◌||◌, ◌&&◌, Option, none, some, List, [], ◌∷◌, ◌++◌, leb, ◌==◌,
  if◌then◌else◌, ℤ,
}
use mathlib.Core.List.{reverse}
use jkfr.HostAddr.{Text, atoi}

-- The value of a variable by its name; `K` has the names.
abbrev pub Environment : Type 0 → Type 0
Environment K = K → Text

-- unicode.IsSpace
abbrev pub is_space : ℕ → Bool
is_space c =
    (leb 9 c && leb c 13)
    || c == 32
    || c == 133
    || c == 160
    || c == 5760
    || (leb 8192 c && leb c 8202)
    || c == 8232
    || c == 8233
    || c == 8239
    || c == 8287
    || c == 12288

unfoldable pub trim_left : Text → Text
trim_left [] = []
trim_left (c ∷ cs) = if is_space c then trim_left cs else c ∷ cs

-- strings.TrimSpace
abbrev pub trim_space : Text → Text
trim_space t = reverse (trim_left (reverse (trim_left t)))

abbrev pub is_empty : Text → Bool
is_empty [] = true
is_empty (c ∷ cs) = false

-- getenv
abbrev pub getenv : {K : Type 0} → Environment K → K → Text
getenv env key = trim_space (env key)

-- GetEnvString
unfoldable pub get_env_string : {K : Type 0} → Environment K → K → Text → Text
get_env_string env key def = if is_empty (getenv env key) then def else getenv env key

abbrev pub prepend : ℕ → List Text → List Text
prepend c [] = (c ∷ []) ∷ []
prepend c (t ∷ ts) = (c ∷ t) ∷ ts

-- strings.Split, at a single character
unfoldable pub split_by : ℕ → Text → List Text
split_by sep [] = [] ∷ []
split_by sep (c ∷ cs) = if c == sep then [] ∷ split_by sep cs else prepend c (split_by sep cs)

-- The loop of GetEnvStrings
unfoldable pub trimmed : List Text → List Text
trimmed [] = []
trimmed (t ∷ ts) = if is_empty (trim_space t) then trimmed ts else trim_space t ∷ trimmed ts

abbrev pub or_default {ℓ} : {A : Type ℓ} → List A → List A → List A
or_default [] def = def
or_default (x ∷ xs) def = x ∷ xs

-- GetEnvStrings; a nil default is empty.
unfoldable pub get_env_strings : {K : Type 0} → Environment K → K → ℕ → List Text → List Text
get_env_strings env key sep def = or_default (trimmed (split_by sep (getenv env key))) def

abbrev pub or_given {ℓ} : {A : Type ℓ} → Option A → A → A
or_given none def = def
or_given (some a) def = a

-- GetEnvInt
unfoldable pub get_env_int : {K : Type 0} → Environment K → K → ℤ → ℤ
get_env_int env key def =
    if is_empty (getenv env key) then def else or_given (atoi (getenv env key)) def

-- The loop of GetEnvInts
unfoldable pub integers : List Text → List ℤ
integers [] = []
integers (t ∷ ts) = elim (atoi t) [ none ↦ integers ts | some n ↦ n ∷ integers ts ]

-- GetEnvInts
unfoldable pub get_env_ints : {K : Type 0} → Environment K → K → ℕ → List ℤ → List ℤ
get_env_ints env key sep def = or_default (integers (get_env_strings env key sep [])) def

-- Of other letters, none has a lower case that is one of these words'.
abbrev pub to_lower : ℕ → ℕ
to_lower c = if leb 65 c && leb c 90 then c + 32 else c

unfoldable pub is_lower_text : Text → Text → Bool
is_lower_text [] [] = true
is_lower_text [] (d ∷ ds) = false
is_lower_text (c ∷ cs) [] = false
is_lower_text (c ∷ cs) (d ∷ ds) = to_lower c == d && is_lower_text cs ds

-- GetEnvBool
unfoldable pub get_env_bool : {K : Type 0} → Environment K → K → Bool → Bool
get_env_bool env key def =
    if is_lower_text (getenv env key) (116 ∷ 114 ∷ 117 ∷ 101 ∷ [])
    then true
    else if is_lower_text (getenv env key) (102 ∷ 97 ∷ 108 ∷ 115 ∷ 101 ∷ [])
    then false
    else def
