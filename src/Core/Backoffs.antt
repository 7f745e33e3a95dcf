-- ===== src/Core/Backoffs.antt =====
-- core/model.go: how far `CalculateNextRetryAt` puts the next attempt off.
use native.Mathlib.Nat.{mul-mod_right}
use o4x.Prelude.{
  ℕ, zero, suc, ◌+◌, ◌*◌, ◌%◌, ◌^◌, ◌≤◌, ◌<◌, ◌≡◌, refl, ap, ◌∙◌, false, min, ltb, if◌then◌else◌,
  arith, Bool-cases, inl, inr,
}
use o4x.Core.Int64.{ℤ, pos, bits, signed, less, mul64, shift_one, signed-small, ◌+ℤ◌}
use o4x.Core.Backoff.{capped_backoff, calculate_next_retry_at}

power-positive : (n : ℕ) → 0 < 2 ^ n
power-positive zero = omega arith
power-positive (suc n) = omega (arith, power-positive n)

factor-le : (b p : ℕ) → 0 < p → b ≤ b * p
factor-le b zero h = absurd (omega arith)
factor-le b (suc p) h = omega arith

factor-le' : (b p : ℕ) → 0 < b → p ≤ b * p
factor-le' zero p h = absurd (omega arith)
factor-le' (suc b) p h = omega arith

power-64 : (k : ℕ) → 2 ^ (64 + k) ≡ 2 ^ 64 * 2 ^ k
power-64 zero = refl
power-64 (suc k) =
    let e : 64 + suc k ≡ suc (64 + k) = omega arith in ap (λ n. 2 ^ n) e ∙ omega (arith, power-64 k)

-- Where the product fits into 63 bits, nothing wraps around.
mul64-shift_one :
    (b n : ℕ) → 0 < b → b * 2 ^ n < 2 ^ 63 → mul64 (pos b) (shift_one n) ≡ pos (b * 2 ^ n)
unfolding mul64 shift_one
mul64-shift_one b n h fits =
    let p : 2 ^ n < 2 ^ 63 = omega (arith, factor-le' b (2 ^ n) h, fits) in
    let q : b < 2 ^ 63 = omega (arith, factor-le b (2 ^ n) (power-positive n), fits) in
    let s : signed (2 ^ n % 2 ^ 64) ≡ pos (2 ^ n) = signed-small (2 ^ n) p in
    let m₁ : 2 ^ n % 2 ^ 64 ≡ 2 ^ n = omega arith in
    let m₂ : b % 2 ^ 64 ≡ b = omega arith in
    ap (λ z. signed (b % 2 ^ 64 * bits z % 2 ^ 64)) s
    ∙ (ap (λ x. signed (b % 2 ^ 64 * x % 2 ^ 64)) m₁
        ∙ (ap (λ x. signed (x * 2 ^ n % 2 ^ 64)) m₂ ∙ signed-small (b * 2 ^ n) fits))

shift_one-large : (k : ℕ) → shift_one (64 + k) ≡ pos 0
unfolding shift_one
shift_one-large k =
    ap (λ x. signed (x % 2 ^ 64)) (power-64 k) ∙ ap signed (mul-mod_right (2 ^ 64) (2 ^ k))

-- As long as base * 2^n has at most 63 bits, the retry comes after the smaller of that and the limit, with
-- the jitter; from an attempt count of 64 on it comes after no backoff at all, whatever the base.
pub calculate_next_retry_at_lem :
    (jittered : ℤ → ℤ) (now base : ℤ) (b n k m : ℕ)
    → 0 < b
    → b * 2 ^ n < 2 ^ 63
    → (calculate_next_retry_at jittered now n (pos b) (pos m)
        ≡ now +ℤ jittered (pos (min (b * 2 ^ n) m)))
      × (calculate_next_retry_at jittered now (64 + k) base (pos m) ≡ now +ℤ jittered (pos 0))
unfolding calculate_next_retry_at capped_backoff
calculate_next_retry_at_lem jittered now base b n k m h fits = (
  ap (λ z. now +ℤ jittered (if less (pos m) z then pos m else z)) (mul64-shift_one b n h fits)
      ∙ ap (λ z. now +ℤ jittered z) (smaller (b * 2 ^ n)),
  ap (λ z. now +ℤ jittered (if less (pos m) z then pos m else z)) (nothing base)
      ∙ ap (λ z. now +ℤ jittered z) zero_kept,
)
  where
    zero_kept : (if ltb m 0 then pos m else pos 0) ≡ pos 0
    zero_kept = let l : ltb m 0 ≡ false = ground arith in rw l refl

    smaller : (x : ℕ) → (if ltb m x then pos m else pos x) ≡ pos (min x m)
    smaller x = elim (Bool-cases (ltb m x)) [
      | inl e ↦ let s : min x m ≡ m = ground arith in rw (e, s) refl
      | inr e ↦ let s : min x m ≡ x = ground arith in rw (e, s) refl
    ]

    nothing : (z : ℤ) → mul64 z (shift_one (64 + k)) ≡ pos 0
    nothing z = ap (mul64 z) (shift_one-large k) ∙ zeros z
      where
        zeros : (z : ℤ) → mul64 z (pos 0) ≡ pos 0
        zeros z = let e : bits z * 0 % 2 ^ 64 ≡ 0 = omega arith in unfold mul64 in ap signed e
