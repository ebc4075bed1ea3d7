-- ===== src/Decimal.antt =====
-- Decimal text of an int64, as strconv.FormatInt(n, 10) prints it and strconv.ParseInt(s, 10, 64)
-- reads it. Counters are stored this way.
use cache.Prelude.{
  ℕ, zero, suc, ◌+◌, ◌-◌, ◌*◌, ◌/◌, ◌%◌, ◌≤◌, ◌<◌, ◌≡◌, ◌≢◌, All, All-append, ◌∙◌, Bool, true,
  false, ◌&&◌, Option, none, some, [], ◌∷◌, ◌++◌, arith, ltb, leb, ◌==◌, if◌then◌else◌, Bool-cases,
  inl, inr, Bytes, ℤ, pos, negsuc, two63, IsInt64, sub_ℕ,
}

-- The digits of `n`, most significant first. Fuel above `n` is enough.
digits : ℕ → ℕ → Bytes
digits zero n = []
digits (suc f) n =
    let rest = digits f (n / 10) in if ltb n 10 then (48 + n) ∷ [] else rest ++ (48 + n % 10) ∷ []

unfoldable pub format_int : ℤ → Bytes
unfolding digits
format_int (pos n) = digits (suc n) n
format_int (negsuc n) = b'-' ∷ digits (suc (suc n)) (suc n)

-- Reads digits to the end, from the value read so far.
read_digits : ℕ → Bytes → Option ℕ
read_digits n [] = some n
read_digits n (c ∷ s) =
    let rest = read_digits (n * 10 + (c - 48)) s in if leb 48 c && leb c 57 then rest else none

-- Digits after a sign: at least one, and within the bounds of int64.
read_signed : Bool → Bytes → Option ℤ
read_signed minus [] = none
read_signed minus (c ∷ s) = elim (read_digits 0 (c ∷ s)) [
  | none ↦ none
  | some n ↦
      if minus
      then (if ltb two63 n then none else some (sub_ℕ 0 n))
      else if ltb n two63
      then some (pos n)
      else none
]

unfoldable pub parse_int : Bytes → Option ℤ
unfolding read_digits read_signed
parse_int [] = none
parse_int (c ∷ s) =
    if c == b'-'
    then read_signed true s
    else if c == b'+'
    then read_signed false s
    else read_signed false (c ∷ s)

read_digits-append :
    (n m c : ℕ) (s : Bytes)
    → read_digits n s ≡ some m
    → 48 ≤ c
    → c ≤ 57
    → read_digits n (s ++ c ∷ []) ≡ some (m * 10 + (c - 48))
unfolding read_digits
read_digits-append n m c [] h lo hi = ground arith
read_digits-append n m c (d ∷ s) h lo hi =
    ground (arith, read_digits-append (n * 10 + (d - 48)) m c s)

read_digits-digits : (f n : ℕ) → n < f → read_digits 0 (digits f n) ≡ some n
unfolding digits
read_digits-digits zero n h = absurd (omega arith)
read_digits-digits (suc f) n h = elim (Bool-cases (ltb n 10)) [
  | inl small ↦ rw small (unfold read_digits in ground arith)
  | inr large ↦ rw large (
      read_digits-append 0 (n / 10) (48 + n % 10) (digits f (n / 10))
        (read_digits-digits f (n / 10) (ground arith)) (omega arith) (omega arith)
      ∙ ground arith)
]

first_digit : (f n : ℕ) → n < f → (c : ℕ) × (s : Bytes) × (digits f n ≡ c ∷ s) × (48 ≤ c) × (c ≤ 57)
unfolding digits
first_digit zero n h = absurd (omega arith)
first_digit (suc f) n h = elim (Bool-cases (ltb n 10)) [
  | inl small ↦ (48 + n, [], rw small, omega arith, ground arith)
  | inr large ↦
      let (c, s, e, lo, hi) = first_digit f (n / 10) (ground arith) in
      (c, s ++ (48 + n % 10) ∷ [], rw (large, e), lo, hi)
]

-- A decimal digit.
abbrev pub IsDigit : ℕ → Type 0
IsDigit c = (48 ≤ c) × (c ≤ 57)

digits-All : (f n : ℕ) → All IsDigit (digits f n)
unfolding digits
digits-All zero n = tt
digits-All (suc f) n = elim (Bool-cases (ltb n 10)) [
  | inl small ↦ rw small ((omega arith, ground arith), tt)
  | inr large ↦ rw large (
      All-append IsDigit (digits f (n / 10)) ((48 + n % 10) ∷ []) (digits-All f (n / 10))
        ((omega arith, omega arith), tt))
]

pub format_int-All : (n : ℕ) → All IsDigit (format_int (pos n))
unfolding format_int
format_int-All n = digits-All (suc n) n

pub format_int-ne_nil : (n : ℕ) → format_int (pos n) ≢ []
unfolding format_int
format_int-ne_nil n h = let (c, s, e, lo, hi) = first_digit (suc n) n (omega arith) in cc

-- What an int64 is printed as reads back as that number.
pub parse_int-format_int : (a : ℤ) → IsInt64 a → parse_int (format_int a) ≡ some a
unfolding format_int parse_int
parse_int-format_int (pos n) h =
    let (c, s, e, lo, hi) = first_digit (suc n) n (omega arith) in
    let read : read_digits 0 (digits (suc n) n) ≡ some n =
      read_digits-digits (suc n) n (omega arith) in
    ground (arith, e, read, h)
parse_int-format_int (negsuc n) h =
    let (c, s, e, lo, hi) = first_digit (suc (suc n)) (suc n) (omega arith) in
    let read : read_digits 0 (digits (suc (suc n)) (suc n)) ≡ some (suc n) =
      read_digits-digits (suc (suc n)) (suc n) (omega arith) in
    ground (arith, e, read, h)

read_signed-IsInt64 : (minus : Bool) (s : Bytes) (a : ℤ) → read_signed minus s ≡ some a → IsInt64 a
unfolding read_signed
read_signed-IsInt64 minus [] a h = ground arith
read_signed-IsInt64 minus (c ∷ s) a h = ground arith

-- What is read is an int64.
pub parse_int-IsInt64 : (s : Bytes) (a : ℤ) → parse_int s ≡ some a → IsInt64 a
unfolding parse_int
parse_int-IsInt64 [] a h = ground arith
parse_int-IsInt64 (c ∷ s) a h = ground (
  arith,
  read_signed-IsInt64 true s a,
  read_signed-IsInt64 false s a,
  read_signed-IsInt64 false (c ∷ s) a,
)
