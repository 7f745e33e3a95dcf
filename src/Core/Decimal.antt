-- ===== src/Core/Decimal.antt =====
-- `fmt`'s `%d` and `strconv.Atoi` of the standard library.
use o4x.Prelude.{
  ℕ, zero, suc, ◌+◌, ◌-◌, ◌*◌, ◌/◌, ◌%◌, ◌^◌, ◌<◌, ◌≡◌, refl, sym, ap, ◌∙◌, Bool, true, false, ◌&&◌,
  Option, none, some, [], ◌∷◌, Text, leb, ltb, ◌==◌, if◌then◌else◌, arith, Bool-cases, ltb→lt, inl,
  inr,
}
use o4x.Core.Int64.{ℤ, pos, negsuc}

-- The digits of a number, of which there are at most so many, before a tail.
digits : ℕ → ℕ → Text → Text
digits zero n tail = tail
digits (suc places) n tail =
    let here = (b'0' + n % 10) ∷ tail in
    let more = digits places (n / 10) here in if ltb n 10 then here else more

unfoldable pub decimal : ℕ → Text
unfolding digits
decimal n = digits 20 n []

abbrev is_digit : ℕ → Bool
is_digit b = leb b'0' b && leb b b'9'

-- The number that digits stand for, behind the number read so far.
value : ℕ → Text → Option ℕ
value n [] = some n
value n (b ∷ s) = let rest = value (n * 10 + (b - b'0')) s in if is_digit b then rest else none

-- Whether the sign leaves the number in 64 bits.
abbrev in_range : Bool → ℕ → Option ℤ
in_range true zero = some (pos zero)
in_range true (suc n) = if leb (suc n) (2 ^ 63) then some (negsuc n) else none
in_range false n = if ltb n (2 ^ 63) then some (pos n) else none

abbrev with_sign : Bool → Option ℕ → Option ℤ
with_sign negative none = none
with_sign negative (some n) = in_range negative n

abbrev unsigned : Bool → Text → Option ℤ
unsigned negative [] = none
unsigned negative (b ∷ s) = with_sign negative (value 0 (b ∷ s))

-- `strconv.Atoi`
unfoldable pub atoi : Text → Option ℤ
unfolding value
atoi [] = none
atoi (b ∷ s) =
    if b == b'-'
    then unsigned true s
    else if b == b'+'
    then unsigned false s
    else unsigned false (b ∷ s)

digit-is_digit : (d : ℕ) → d < 10 → is_digit (b'0' + d) ≡ true
digit-is_digit d h = ground arith

value-digit :
    (a d : ℕ) (tail : Text) → d < 10 → value a ((b'0' + d) ∷ tail) ≡ value (a * 10 + d) tail
unfolding value
value-digit a d tail h =
    let e : b'0' + d - b'0' ≡ d = omega arith in
    rw (digit-is_digit d h) (ap (λ x. value (a * 10 + x) tail) e)

last_digit : (n : ℕ) (tail : Text) → n < 10 → value 0 ((b'0' + n % 10) ∷ tail) ≡ value n tail
last_digit n tail h =
    let e : 0 * 10 + n % 10 ≡ n = omega arith in
    value-digit 0 (n % 10) tail (omega arith) ∙ ap (λ x. value x tail) e

-- Reading printed digits leads to the number.
value-digits :
    (k n : ℕ) (tail : Text) → n < 10 ^ suc k → value 0 (digits (suc k) n tail) ≡ value n tail
unfolding digits
value-digits zero n tail h =
    let small : ltb n 10 ≡ true = ground arith in rw small (last_digit n tail (omega arith))
value-digits (suc k) n tail h = elim (Bool-cases (ltb n 10)) [
  | inl small ↦ rw small (last_digit n tail (ltb→lt n 10 small))
  | inr large ↦
      let e : n / 10 * 10 + n % 10 ≡ n = omega arith in
      rw large (
        value-digits k (n / 10) ((b'0' + n % 10) ∷ tail) (omega arith)
        ∙ (value-digit (n / 10) (n % 10) tail (omega arith) ∙ ap (λ x. value x tail) e))
]

-- Printed digits begin with a digit.
digits_head :
    (k n : ℕ) (tail : Text)
    → (b : ℕ) × (s : Text) × (digits (suc k) n tail ≡ b ∷ s) × (is_digit b ≡ true)
unfolding digits
digits_head zero n tail = elim (Bool-cases (ltb n 10)) [
  | inl small ↦ rw small (b'0' + n % 10, tail, refl, digit-is_digit (n % 10) (omega arith))
  | inr large ↦ rw large (b'0' + n % 10, tail, refl, digit-is_digit (n % 10) (omega arith))
]
digits_head (suc k) n tail = elim (Bool-cases (ltb n 10)) [
  | inl small ↦ rw small (b'0' + n % 10, tail, refl, digit-is_digit (n % 10) (omega arith))
  | inr large ↦ rw large (digits_head k (n / 10) ((b'0' + n % 10) ∷ tail))
]

unsigned-digits :
    (b : ℕ) (s : Text) (n : ℕ)
    → is_digit b ≡ true
    → value 0 (b ∷ s) ≡ some n
    → n < 2 ^ 63
    → atoi (b ∷ s) ≡ some (pos n)
unfolding atoi
unsigned-digits b s n d v h =
    let minus : (b == b'-') ≡ false = ground arith in
    let plus : (b == b'+') ≡ false = ground arith in
    let fits : ltb n (2 ^ 63) ≡ true = ground arith in rw (minus, plus, v, fits) refl

-- `Atoi` reads back every 64-bit number that `%d` prints.
pub atoi-decimal : (n : ℕ) → n < 2 ^ 63 → atoi (decimal n) ≡ some (pos n)
unfolding decimal value
atoi-decimal n h =
    let (b, s, e, d) = digits_head 19 n [] in
    let v : value 0 (b ∷ s) ≡ some n = sym (ap (value 0) e) ∙ value-digits 19 n [] (omega arith) in
    ap atoi e ∙ unsigned-digits b s n d v h
