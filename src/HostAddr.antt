-- ===== src/HostAddr.antt =====
-- Addresses of servers as texts: ParseHostAddr and GetRandomHostAddr of net/net.go, with what they use of
-- Go's net and strconv. A text is the list of its characters' codes.
pub mod Decimal
pub mod RoundTrip
mod Tests
use jkfr.Prelude.{
  ℕ, zero, suc, ◌+◌, ◌-◌, ◌*◌, ◌/◌, ◌%◌, ◌^◌, Bool, true, false, not, ◌&&◌, ◌||◌, Option, none,
  some, List, [], ◌∷◌, ◌++◌, ltb, leb, ◌==◌, if◌then◌else◌, ℤ, pos, negsuc, elem, is_none,
}

abbrev pub Text : Type 0
Text = List ℕ

abbrev pub colon : ℕ
colon = 58

abbrev pub open_bracket : ℕ
open_bracket = 91

abbrev pub close_bracket : ℕ
close_bracket = 93

-- strconv.Itoa, on fuel: each round takes a digit away.
unfoldable pub digits : ℕ → ℕ → Text
digits zero n = []
digits (suc fuel) n = elim (ltb n 10) [
  | true ↦ (48 + n) ∷ []
  | false ↦ digits fuel (n / 10) ++ (48 + n % 10) ∷ []
]

abbrev pub itoa : ℕ → Text
itoa n = digits (suc n) n

abbrev pub itoa_ℤ : ℤ → Text
itoa_ℤ (pos n) = itoa n
itoa_ℤ (negsuc n) = 45 ∷ itoa (suc n)

abbrev pub is_digit : ℕ → Bool
is_digit c = leb 48 c && leb c 57

unfoldable pub read_digits : ℕ → Text → Option ℕ
read_digits acc [] = some acc
read_digits acc (c ∷ cs) = if is_digit c then read_digits (acc * 10 + (c - 48)) cs else none

abbrev pub in_range : Bool → ℕ → Option ℤ
in_range minus zero = some (pos 0)
in_range true (suc n) = if ltb (2 ^ 63) (suc n) then none else some (negsuc n)
in_range false (suc n) = if leb (2 ^ 63) (suc n) then none else some (pos (suc n))

abbrev pub in_range? : Bool → Option ℕ → Option ℤ
in_range? minus none = none
in_range? minus (some n) = in_range minus n

abbrev pub signed : Bool → Text → Option ℤ
signed minus [] = none
signed minus (c ∷ cs) = in_range? minus (read_digits 0 (c ∷ cs))

-- strconv.Atoi
unfoldable pub atoi : Text → Option ℤ
atoi [] = none
atoi (c ∷ cs) =
    if c == 45 then signed true cs else if c == 43 then signed false cs else signed false (c ∷ cs)

-- The parts of a text before and after the first, or the last, occurrence of a character.
unfoldable pub split_first : ℕ → Text → Option (Text × Text)
split_first c [] = none
split_first c (x ∷ xs) =
    if x == c
    then some ([], xs)
    else elim (split_first c xs) [ none ↦ none | some (before, after) ↦ some (x ∷ before, after) ]

unfoldable pub split_last : ℕ → Text → Option (Text × Text)
split_last c [] = none
split_last c (x ∷ xs) = elim (split_last c xs) [
  | some (before, after) ↦ some (x ∷ before, after)
  | none ↦ if x == c then some ([], xs) else none
]

pub data AddrError : Type 0 where
  missing_port too_many_colons missing_bracket unexpected_bracket bad_port : AddrError

pub data Split : Type 0 where
  split : Text → Text → Split
  split_error : AddrError → Split

-- What follows the closing bracket, before the last colon.
abbrev pub after_bracket : Text → Text → Text → Split
after_bracket host port (x ∷ rest) =
    split_error (if x == colon then too_many_colons else missing_port)
after_bracket host port [] =
    if elem open_bracket host || elem open_bracket port || elem close_bracket port
    then split_error unexpected_bracket
    else split host port

-- A text that starts with a bracket; `before` is what lies between that and the last colon.
abbrev pub bracketed : Text → Text → Split
bracketed before port = elim (split_first close_bracket before) [
  | some (host, rest) ↦ after_bracket host port rest
  | none ↦ split_error (if elem close_bracket port then missing_port else missing_bracket)
]

abbrev pub plain : Text → Text → Split
plain host port =
    if elem colon host
    then split_error too_many_colons
    else if elem open_bracket host
        || elem open_bracket port
        || elem close_bracket host
        || elem close_bracket port
    then split_error unexpected_bracket
    else split host port

abbrev pub split_at : Text → Text → Split
split_at [] port = plain [] port
split_at (x ∷ before) port =
    if x == open_bracket then bracketed before port else plain (x ∷ before) port

-- net.SplitHostPort
unfoldable pub split_host_port : Text → Split
split_host_port addr = elim (split_last colon addr) [
  | none ↦ split_error missing_port
  | some (before, port) ↦ split_at before port
]

-- net.JoinHostPort
unfoldable pub join_host_port : Text → Text → Text
join_host_port host port =
    if elem colon host
    then open_bracket ∷ (host ++ close_bracket ∷ colon ∷ port)
    else host ++ colon ∷ port

-- strings.Contains(addr, "]:")
unfoldable pub has_port : Text → Bool
has_port [] = false
has_port (x ∷ xs) = elim xs [
  | [] ↦ false
  | y ∷ ys ↦ (x == close_bracket && y == colon) || has_port xs
]

-- What ParseHostAddr returns: a host and a port, or an error.
pub data Parsed : Type 0 where
  parsed : Text → ℤ → Parsed
  parse_error : AddrError → Parsed

abbrev pub parsed_port : Text → Option ℤ → Parsed
parsed_port host none = parse_error bad_port
parsed_port host (some port) = parsed host port

abbrev pub parsed_split : Split → Parsed
parsed_split (split_error e) = parse_error e
parsed_split (split host port) = parsed_port host (atoi port)

-- ParseHostAddr; the empty text has neither a bracket nor a colon.
unfoldable pub parse_host_addr : Text → Parsed
parse_host_addr addr =
    if not (elem close_bracket addr) && not (elem colon addr)
    then parsed addr (pos 0)
    else if elem close_bracket addr && not (has_port addr)
    then parsed addr (pos 0)
    else parsed_split (split_host_port addr)

-- What GetRandomHostAddr returns.
pub data RandomAddr : Type 0 where
  random_addr : Text → ℤ → RandomAddr
  random_error : AddrError → RandomAddr

abbrev pub with_port : Text → ℤ → Parsed → RandomAddr
with_port addr free (parse_error e) = random_error e
with_port addr free (parsed host (pos zero)) = random_addr (host ++ colon ∷ itoa_ℤ free) free
with_port addr free (parsed host port) = random_addr addr port

-- GetRandomHostAddr, where GetFreePort returns `free`
unfoldable pub get_random_host_addr : ℤ → Text → RandomAddr
get_random_host_addr free addr = with_port addr free (parse_host_addr addr)
