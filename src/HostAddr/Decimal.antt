-- ===== src/HostAddr/Decimal.antt =====
-- Decimal numerals: what Itoa prints, Atoi reads. For the ports of net/net.go.
use jkfr.Prelude.{
  ℕ, zero, suc, ◌+◌, ◌-◌, ◌*◌, ◌/◌, ◌%◌, ◌^◌, ◌<◌, ◌≡◌, refl, sym, ap, ◌∙◌, true, false, none, some,
  [], ◌∷◌, ◌++◌, arith, ltb, ◌==◌, if◌then◌else◌, pos, elem, elem-append, Bool-cases, inl, inr,
}
use jkfr.HostAddr.{Text, digits, itoa, is_digit, read_digits, in_range, in_range?, atoi}

-- A character that is no digit is in no numeral.
pub digits-elem : (fuel n c : ℕ) → is_digit c ≡ false → elem c (digits fuel n) ≡ false
unfolding digits elem
digits-elem zero n c far = refl
digits-elem (suc fuel) n c far =
    let low = elem-append c (digits fuel (n / 10)) ((48 + n % 10) ∷ []) in
    let high = digits-elem fuel (n / 10) c far in
    elim (Bool-cases (ltb n 10)) [
      | inl e ↦ rw (e, digits) (ground arith)
      | inr e ↦ rw (e, digits) (ground (arith, low, high))
    ]

read_digits-append :
    (acc c : ℕ) (cs : Text)
    → read_digits acc (cs ++ c ∷ []) ≡ (elim (read_digits acc cs) [
      | none ↦ none
      | some n ↦ if is_digit c then some (n * 10 + (c - 48)) else none
    ])
unfolding read_digits
read_digits-append acc c [] = refl
read_digits-append acc c (d ∷ cs) = elim (Bool-cases (is_digit d)) [
  | inl e ↦ rw (e, read_digits) (read_digits-append (acc * 10 + (d - 48)) c cs)
  | inr e ↦ rw (e, read_digits) refl
]

read_digits-digits : (fuel n : ℕ) → n < fuel → read_digits 0 (digits fuel n) ≡ some n
unfolding digits read_digits
read_digits-digits zero n h = elim h [ ]
read_digits-digits (suc fuel) n h = elim (Bool-cases (ltb n 10)) [
  | inl e ↦ rw (e, digits) (ground arith)
  | inr e ↦
      let high = read_digits-digits fuel (n / 10) (ground arith) in
      rw (e, digits)
        (read_digits-append 0 (48 + n % 10) (digits fuel (n / 10)) ∙ rw (high) (ground arith))
]

-- A numeral starts with a digit.
digits-first :
    (fuel n : ℕ) → n < fuel → (c : ℕ) × (cs : Text) × (digits fuel n ≡ c ∷ cs) × (is_digit c ≡ true)
unfolding digits
digits-first zero n h = elim h [ ]
digits-first (suc fuel) n h = elim (Bool-cases (ltb n 10)) [
  | inl e ↦ (48 + n, [], rw (e, digits) refl, ground arith)
  | inr e ↦
      let (c, cs, high, is_dig) = digits-first fuel (n / 10) (ground arith) in
      (
        c,
        cs ++ (48 + n % 10) ∷ [],
        rw (e, digits) (ap (λ ds. ds ++ (48 + n % 10) ∷ []) high),
        is_dig,
      )
]

pub atoi-itoa : (n : ℕ) → n < 2 ^ 63 → atoi (itoa n) ≡ some (pos n)
unfolding atoi
atoi-itoa n h =
    let (c, cs, first, is_dig) = digits-first (suc n) n (omega arith) in
    let value = read_digits-digits (suc n) n (omega arith) in
    ap atoi first ∙ unsigned c cs is_dig (sym (ap (read_digits 0) first) ∙ value)
  where
    ranged : (m : ℕ) → m < 2 ^ 63 → in_range false m ≡ some (pos m)
    ranged zero l = refl
    ranged (suc m) l = ground arith

    unsigned :
        (c : ℕ) (cs : Text)
        → is_digit c ≡ true
        → read_digits 0 (c ∷ cs) ≡ some n
        → atoi (c ∷ cs) ≡ some (pos n)
    unsigned c cs d value =
        let minus : (c == 45) ≡ false = ground arith in
        let plus : (c == 43) ≡ false = ground arith in
        rw (minus, plus, atoi) (ap (in_range? false) value ∙ ranged n h)
