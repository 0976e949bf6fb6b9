-- ===== src/HostAddr/RoundTrip.antt =====
-- ParseHostAddr of net/net.go reads what net.JoinHostPort writes, and not all that GetRandomHostAddr
-- writes.
use jkfr.Prelude.{
  ℕ, suc, ◌^◌, ◌<◌, ◌≡◌, refl, sym, ap, ◌∙◌, Bool, true, false, not, ◌&&◌, ◌||◌, none, some, [],
  ◌∷◌, ◌++◌, arith, ◌==◌, if◌then◌else◌, pos, elem, elem-append, Bool-cases, inl, inr,
}
use jkfr.HostAddr.{
  Text, colon, open_bracket, close_bracket, itoa, split_first, split_last, too_many_colons, split,
  split_error, bracketed, plain, split_at, split_host_port, join_host_port, has_port, parsed,
  parse_error, parsed_port, parsed_split, parse_host_addr, random_addr, with_port,
  get_random_host_addr,
}
use jkfr.HostAddr.Decimal.{digits-elem, atoi-itoa}

split_last-none : (c : ℕ) (xs : Text) → elem c xs ≡ false → split_last c xs ≡ none
unfolding split_last elem
split_last-none c [] e = refl
split_last-none c (x ∷ xs) e =
    let rest = split_last-none c xs (ground arith) in
    let far : (x == c) ≡ false = ground arith in rw (rest, far) refl

-- A text with the character between two others is split there, if the second is free of it.
split_last-append :
    (c : ℕ) (xs ys : Text) → elem c ys ≡ false → split_last c (xs ++ c ∷ ys) ≡ some (xs, ys)
unfolding split_last
split_last-append c [] ys e =
    let same : (c == c) ≡ true = ground arith in rw (split_last-none c ys e, same) refl
split_last-append c (x ∷ xs) ys e = rw (split_last-append c xs ys e) refl

split_first-append :
    (c : ℕ) (xs ys : Text) → elem c xs ≡ false → split_first c (xs ++ c ∷ ys) ≡ some (xs, ys)
unfolding split_first elem
split_first-append c [] ys e = ground arith
split_first-append c (x ∷ xs) ys e =
    let far : (x == c) ≡ false = ground arith in
    let rest = split_first-append c xs ys (ground arith) in rw (far, rest) refl

has_port-append : (xs ys : Text) → has_port (xs ++ close_bracket ∷ colon ∷ ys) ≡ true
unfolding has_port
has_port-append [] ys = refl
has_port-append (x ∷ []) ys = ground (arith, has_port-append [] ys)
has_port-append (x ∷ y ∷ xs) ys = ground (arith, has_port-append (y ∷ xs) ys)

append_cons : (xs ys : Text) (c : ℕ) → (xs ++ c ∷ []) ++ ys ≡ xs ++ c ∷ ys
append_cons [] ys c = refl
append_cons (x ∷ xs) ys c = ap (λ zs. x ∷ zs) (append_cons xs ys c)

-- A text without brackets.
abbrev pub IsBare : Text → Type 0
IsBare t = (elem open_bracket t ≡ false) × (elem close_bracket t ≡ false)

plain_split :
    (host port : Text)
    → IsBare host
    → IsBare port
    → elem colon host ≡ false
    → plain host port ≡ split host port
plain_split host port h p e = rw (e, h.0, p.0, h.1, p.1) refl

first_bare : (x : ℕ) (xs : Text) → IsBare (x ∷ xs) → (x == open_bracket) ≡ false
unfolding elem
first_bare x xs h = ground (arith, h.0)

split_at-plain :
    (host port : Text)
    → IsBare host
    → IsBare port
    → elem colon host ≡ false
    → split_at host port ≡ split host port
split_at-plain [] port h p e = plain_split [] port h p e
split_at-plain (x ∷ host) port h p e = rw (first_bare x host h) (plain_split (x ∷ host) port h p e)

bracketed_split :
    (host port : Text)
    → IsBare host
    → IsBare port
    → bracketed (host ++ close_bracket ∷ []) port ≡ split host port
bracketed_split host port h p =
    rw (split_first-append close_bracket host [] h.1, bracketed) (rw (h.0, p.0, p.1) refl)

-- A numeral has no colon and no bracket.
itoa-IsBare : (n : ℕ) → IsBare (itoa n)
itoa-IsBare n = (digits-elem (suc n) n open_bracket refl, digits-elem (suc n) n close_bracket refl)

itoa-colon : (n : ℕ) → elem colon (itoa n) ≡ false
itoa-colon n = digits-elem (suc n) n colon refl

split_host_port-join :
    (host : Text) (n : ℕ)
    → IsBare host
    → split_host_port (join_host_port host (itoa n)) ≡ split host (itoa n)
unfolding split_host_port join_host_port
split_host_port-join host n h = elim (Bool-cases (elem colon host)) [
  | inl e ↦
      let last =
        split_last-append colon (open_bracket ∷ (host ++ close_bracket ∷ [])) (itoa n)
          (itoa-colon n) in
      let whole = ap (λ t. open_bracket ∷ t) (append_cons host (colon ∷ itoa n) close_bracket) in
      rw (e, join_host_port)
        (ap split_host_port (sym whole)
          ∙ rw (last, split_host_port) (bracketed_split host (itoa n) h (itoa-IsBare n)))
  | inr e ↦
      let last = split_last-append colon host (itoa n) (itoa-colon n) in
      rw (e, join_host_port)
        (rw (last, split_host_port) (split_at-plain host (itoa n) h (itoa-IsBare n) e))
]

-- A text that is not taken for a host without a port.
parse-split :
    (addr : Text)
    → elem colon addr ≡ true
    → elem close_bracket addr && not (has_port addr) ≡ false
    → parse_host_addr addr ≡ parsed_split (split_host_port addr)
unfolding parse_host_addr
parse-split addr c p = by (elem close_bracket addr) (elem colon addr) _ c p
  where
    by :
        (b d r : Bool)
        → d ≡ true
        → r ≡ false
        → (if not b && not d
            then parsed addr (pos 0)
            else if r
            then parsed addr (pos 0)
            else parsed_split (split_host_port addr))
          ≡ parsed_split (split_host_port addr)
    by true d true t f = cc
    by true d false t f = refl
    by false true true t f = cc
    by false true false t f = refl
    by false false r t f = cc

join-colon : (host port : Text) → elem colon (join_host_port host port) ≡ true
unfolding join_host_port elem
join-colon host port =
    let bare = elem-append colon host (colon ∷ port) in
    let held = elem-append colon host (close_bracket ∷ colon ∷ port) in
    elim (Bool-cases (elem colon host)) [
      | inl e ↦ rw (e, join_host_port) (ground (arith, held))
      | inr e ↦ rw (e, join_host_port) (ground (arith, bare))
    ]

unbracketed :
    (host port : Text)
    → IsBare host
    → IsBare port
    → elem close_bracket (host ++ colon ∷ port) ≡ false
unfolding elem
unbracketed host port h p = ground (arith, elem-append close_bracket host (colon ∷ port), h.1, p.1)

join-port :
    (host port : Text)
    → IsBare host
    → IsBare port
    → (elem close_bracket (join_host_port host port) && not (has_port (join_host_port host port)))
      ≡ false
unfolding join_host_port elem
join-port host port h p = elim (Bool-cases (elem colon host)) [
  | inl e ↦ rw (e, join_host_port) (ground (arith, has_port-append (open_bracket ∷ host) port))
  | inr e ↦ rw (e, join_host_port) (ground (arith, unbracketed host port h p))
]

-- ParseHostAddr reads from what net.JoinHostPort makes of a host without brackets and a port below 2^63
-- that host and that port, whether the host has colons, as an IPv6 address has, or not.
pub parse_host_addr-join_host_port :
    (host : Text) (port : ℕ)
    → elem open_bracket host ≡ false
    → elem close_bracket host ≡ false
    → port < 2 ^ 63
    → parse_host_addr (join_host_port host (itoa port)) ≡ parsed host (pos port)
parse_host_addr-join_host_port host port o c small =
    parse-split _ (join-colon host (itoa port))
      (join-port host (itoa port) (o, c) (itoa-IsBare port))
    ∙ ap parsed_split (split_host_port-join host port (o, c))
    ∙ ap (parsed_port host) (atoi-itoa port small)

elem-nil : (c : ℕ) → elem c [] ≡ true → ⊥
unfolding elem
elem-nil c e = cc

split_at-refused :
    (host port : Text)
    → IsBare host
    → elem colon host ≡ true
    → split_at host port ≡ split_error too_many_colons
split_at-refused [] port h e = absurd (elem-nil colon e)
split_at-refused (x ∷ host) port h e = rw (first_bare x host h, e) refl

-- Of a host with a colon and without brackets, GetRandomHostAddr makes, from its address with the port 0,
-- a text that ParseHostAddr refuses.
pub get_random_host_addr-refused :
    (host : Text) (free : ℕ)
    → elem open_bracket host ≡ false
    → elem close_bracket host ≡ false
    → elem colon host ≡ true
    → (get_random_host_addr (pos free) (join_host_port host (itoa 0))
        ≡ random_addr (host ++ colon ∷ itoa free) (pos free))
      × (parse_host_addr (host ++ colon ∷ itoa free) ≡ parse_error too_many_colons)
unfolding get_random_host_addr split_host_port
get_random_host_addr-refused host free o c e = (
  ap (with_port (join_host_port host (itoa 0)) (pos free))
      (parse_host_addr-join_host_port host 0 o c (omega arith)),
  parse-split (host ++ colon ∷ itoa free)
        (elem-append colon host (colon ∷ itoa free)
          ∙ ap (λ b. b || elem colon (colon ∷ itoa free)) e)
        (ap (λ b. b && not (has_port (host ++ colon ∷ itoa free)))
          (unbracketed host (itoa free) (o, c) (itoa-IsBare free)))
      ∙ ap parsed_split refused,
)
  where
    last : split_last colon (host ++ colon ∷ itoa free) ≡ some (host, itoa free)
    last = split_last-append colon host (itoa free) (itoa-colon free)

    refused : split_host_port (host ++ colon ∷ itoa free) ≡ split_error too_many_colons
    refused = rw (last, split_host_port) (split_at-refused host (itoa free) (o, c) e)
