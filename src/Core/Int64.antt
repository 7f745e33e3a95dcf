-- ===== src/Core/Int64.antt =====
-- Go's `int64`, and `int` on 64-bit systems: numbers whose sums and products wrap around.
use o4x.Prelude.{
  ◌≡◌, ◌<◌, refl, arith, ℕ, zero, suc, ◌+◌, ◌-◌, ◌*◌, ◌%◌, ◌^◌, Bool, true, false, ltb,
  if◌then◌else◌,
}

-- `pos n` is n, and `negsuc n` is -(n + 1).
pub data ℤ : Type 0 where
  pos : ℕ → ℤ
  negsuc : ℕ → ℤ

abbrev pub is_negative : ℤ → Bool
is_negative (pos n) = false
is_negative (negsuc n) = true

abbrev pub is_positive : ℤ → Bool
is_positive (pos (suc n)) = true
is_positive _ = false

abbrev pub is_zero : ℤ → Bool
is_zero (pos zero) = true
is_zero _ = false

abbrev pub less : ℤ → ℤ → Bool
less (pos m) (pos n) = ltb m n
less (pos m) (negsuc n) = false
less (negsuc m) (pos n) = true
less (negsuc m) (negsuc n) = ltb n m

-- The signed number with these 64 bits.
abbrev pub signed : ℕ → ℤ
signed m = if ltb m (2 ^ 63) then pos m else negsuc (2 ^ 64 - 1 - m)

unfoldable pub times : ℕ → ℤ → ℤ
times k (pos n) = signed (n * k % 2 ^ 64)
times k (negsuc n) = signed ((2 ^ 64 - suc n * k % 2 ^ 64) % 2 ^ 64)

pub signed-small : (m : ℕ) → m < 2 ^ 63 → signed (m % 2 ^ 64) ≡ pos m
signed-small m h =
    let e : m % 2 ^ 64 ≡ m = omega arith in
    let l : ltb m (2 ^ 63) ≡ true = ground arith in rw (e, l) refl

-- The 64 bits of a number.
abbrev pub bits : ℤ → ℕ
bits (pos n) = n % 2 ^ 64
bits (negsuc n) = 2 ^ 64 - 1 - n % 2 ^ 64

unfoldable pub mul64 : ℤ → ℤ → ℤ
mul64 a b = signed (bits a * bits b % 2 ^ 64)

-- `1 << n`
unfoldable pub shift_one : ℕ → ℤ
shift_one n = signed (2 ^ n % 2 ^ 64)

infixl 20 ◌+ℤ◌
-- Without a bound: for points of time.
unfoldable pub ◌+ℤ◌ : ℤ → ℤ → ℤ
pos m +ℤ pos n = pos (m + n)
pos m +ℤ negsuc n = if ltb n m then pos (m - suc n) else negsuc (n - m)
negsuc m +ℤ pos n = if ltb m n then pos (n - suc m) else negsuc (m - n)
negsuc m +ℤ negsuc n = negsuc (suc (m + n))
