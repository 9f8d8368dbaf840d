-- ===== src/Cstring/Decimal.antt =====
-- `%d` of printf, and `strtol` in base 10 with its conversion to `int`.
use native.Mathlib.Nat.{pow-suc}
use gopher_server_cross_plat.Base.{
  ℕ, zero, suc, ◌+◌, ◌-◌, ◌*◌, ◌/◌, ◌%◌, ◌^◌, ◌≤◌, ◌<◌, Bool, true, false, ◌&&◌, ◌||◌, [], ◌∷◌, ◌≡◌,
  ◌≢◌, refl, ap, arith, ◌==◌, ltb, leb, if◌then◌else◌, Bytes, All, All-map, Without, length, ℤ, pos,
  negsuc, negate, Bool-cases, inl, inr,
}

-- Digits, most significant first, in front of `acc`; the fuel bounds their number.
unfoldable pub digits_onto : ℕ → ℕ → Bytes → Bytes
digits_onto zero n acc = acc
digits_onto (suc f) n acc =
    let d = b'0' + n % 10 in
    let rest = digits_onto f (n / 10) (d ∷ acc) in if ltb n 10 then d ∷ acc else rest

-- `%u`: a number below 2^64 has at most 20 digits.
unfoldable pub print_nat : ℕ → Bytes
unfolding digits_onto
print_nat n = digits_onto 20 n []

-- `%d` of an `int`.
unfoldable pub print_int : ℤ → Bytes
unfolding print_nat
print_int (pos n) = print_nat n
print_int (negsuc n) = b'-' ∷ print_nat (suc n)

unfoldable pub is_digit : ℕ → Bool
is_digit c = leb b'0' c && leb c b'9'

unfoldable pub is_space : ℕ → Bool
is_space c = c == b' ' || leb 9 c && leb c 13

-- The value of the leading digits, and what stands behind them.
unfoldable pub read_digits : ℕ → Bytes → ℕ × Bytes
unfolding is_digit
read_digits acc [] = (acc, [])
read_digits acc (c ∷ s) =
    let rest = read_digits (acc * 10 + (c - b'0')) s in if is_digit c then rest else (acc, c ∷ s)

unfoldable pub skip_space : Bytes → Bytes
unfolding is_space
skip_space [] = []
skip_space (c ∷ s) = let rest = skip_space s in if is_space c then rest else c ∷ s

abbrev long_max : ℕ
long_max = 2 ^ 63 - 1

-- A `long` saturates; with no digit nothing is read and the end pointer is the start.
unfoldable pub signed_value : Bytes → Bool → Bytes → ℤ × Bytes
unfolding read_digits is_digit
signed_value start negative [] = (pos 0, start)
signed_value start negative (c ∷ s) =
    let (n, rest) = read_digits 0 (c ∷ s) in
    if is_digit c
    then (
      (if negative
          then (if leb n (long_max + 1) then negate n else negsuc long_max)
          else (if leb n long_max then pos n else pos long_max)),
      rest,
    )
    else (pos 0, start)

strip_sign : Bytes → Bytes → ℤ × Bytes
unfolding signed_value
strip_sign start [] = (pos 0, start)
strip_sign start (c ∷ s) =
    if c == b'-'
    then signed_value start true s
    else if c == b'+'
    then signed_value start false s
    else signed_value start false (c ∷ s)

-- `strtol(s, &end, 10)`: the value and the string at `end`.
unfoldable pub strtol : Bytes → ℤ × Bytes
unfolding skip_space strip_sign
strtol s = strip_sign s (skip_space s)

pub length-digits_onto :
    (f k n : ℕ) (acc : Bytes) → n < 10 ^ suc k → length (digits_onto f n acc) ≤ suc k + length acc
unfolding digits_onto
length-digits_onto zero k n acc h = omega arith
length-digits_onto (suc f) zero n acc h = ground arith
length-digits_onto (suc f) (suc k) n acc h = ground (
  arith,
  length-digits_onto f k (n / 10) ((b'0' + n % 10) ∷ acc),
  pow-suc 10 k,
  pow-suc 10 (suc k),
)

-- A number below 10^k prints in at most k digits.
pub length-print_nat : (k n : ℕ) → n < 10 ^ suc k → length (print_nat n) ≤ suc k
unfolding print_nat
length-print_nat k n h = omega (arith, length-digits_onto 20 k n [] h)

-- Reading back what was printed goes on behind the digits with the number itself.
pub read_digits-digits_onto :
    (f n : ℕ) (acc : Bytes)
    → n < 10 ^ suc f
    → read_digits 0 (digits_onto (suc f) n acc) ≡ read_digits n acc
unfolding digits_onto read_digits
read_digits-digits_onto zero n acc h = ground arith
read_digits-digits_onto (suc f) n acc h = ground (
  arith,
  read_digits-digits_onto f (n / 10) ((b'0' + n % 10) ∷ acc),
  pow-suc 10 f,
  pow-suc 10 (suc f),
)

abbrev pub IsDigits : Bytes → Type 0
IsDigits = All (λ c. is_digit c ≡ true)

pub digits_onto-IsDigits : (f n : ℕ) (acc : Bytes) → IsDigits acc → IsDigits (digits_onto f n acc)
unfolding digits_onto is_digit
digits_onto-IsDigits zero n acc h = h
digits_onto-IsDigits (suc f) n acc h = elim (Bool-cases (ltb n 10)) [
  | inl e ↦ rw e (ground arith, h)
  | inr e ↦ rw e (digits_onto-IsDigits f (n / 10) ((b'0' + n % 10) ∷ acc) (ground arith, h))
]

pub print_nat-IsDigits : (n : ℕ) → IsDigits (print_nat n)
unfolding print_nat
print_nat-IsDigits n = digits_onto-IsDigits 20 n [] tt

length-digits_onto-pos : (f n : ℕ) (acc : Bytes) → length acc < length (digits_onto (suc f) n acc)
unfolding digits_onto
length-digits_onto-pos zero n acc = ground arith
length-digits_onto-pos (suc f) n acc =
    ground (arith, length-digits_onto-pos f (n / 10) ((b'0' + n % 10) ∷ acc))

pub print_nat-ne_nil : (n : ℕ) → print_nat n ≢ []
unfolding print_nat
print_nat-ne_nil n e = omega (arith, length-digits_onto-pos 19 n [], ap length e)

-- At least one digit is printed.
pub print_nat-cons : (n : ℕ) → (c : ℕ) × (s : Bytes) × (print_nat n ≡ c ∷ s) × (is_digit c ≡ true)
print_nat-cons n = go (print_nat n) refl (print_nat-IsDigits n)
  where
    go :
        (s : Bytes)
        → print_nat n ≡ s
        → IsDigits s
        → (c : ℕ) × (s' : Bytes) × (print_nat n ≡ c ∷ s') × (is_digit c ≡ true)
    go [] e h = absurd (print_nat-ne_nil n e)
    go (c ∷ s) e h = (c, s, e, h.0)

pub read_digits-print_nat : (n : ℕ) → n < 10 ^ 20 → read_digits 0 (print_nat n) ≡ (n, [])
unfolding print_nat read_digits
read_digits-print_nat n h = read_digits-digits_onto 19 n [] h

-- `strtol` reads back every printed number that fits a `long`.
pub strtol-print_nat : (n : ℕ) → n < 2 ^ 63 → strtol (print_nat n) ≡ (pos n, [])
unfolding strtol is_space
strtol-print_nat n h =
    let (c, s, e, d) = print_nat-cons n in
    rw e (unfold is_digit in ground (arith, rw e at (read_digits-print_nat n (omega arith))))

-- And every negated one.
pub strtol-minus : (n : ℕ) → n < 2 ^ 63 → strtol (b'-' ∷ print_nat n) ≡ (negate n, [])
unfolding strtol is_space
strtol-minus n h =
    let (c, s, e, d) = print_nat-cons n in
    rw e (unfold is_digit in ground (arith, rw e at (read_digits-print_nat n (omega arith))))

-- No digit is a byte below 48.
pub print_nat-Without : (c n : ℕ) → c < b'0' → Without c (print_nat n)
unfolding is_digit
print_nat-Without c n h =
    All-map (λ x. is_digit x ≡ true) (λ x. (x == c) ≡ false) (print_nat n) (λ x d. ground arith)
      (print_nat-IsDigits n)

pub print_int-Without_zero : (z : ℤ) → Without 0 (print_int z)
unfolding print_int
print_int-Without_zero (pos n) = print_nat-Without 0 n (omega arith)
print_int-Without_zero (negsuc n) = (refl, print_nat-Without 0 (suc n) (omega arith))
