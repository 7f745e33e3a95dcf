-- ===== src/Core/Defaults.antt =====
-- core/dispatcher.go and core/batch_dispatcher.go: the defaults of a configuration.
use o4x.Prelude.{
  ℕ, zero, suc, ◌-◌, ◌*◌, ◌^◌, ◌≤◌, ◌<◌, ◌≡◌, refl, ap, ◌∙◌, ◌⊎◌, inl, inr, Bool, true, false, not,
  ◌&&◌, ◌||◌, ltb, ltb→lt, arith, Bool-cases,
}
use o4x.Core.Int64.{ℤ, pos, negsuc, is_negative, is_positive, is_zero, less, signed-small, times}
use o4x.Core.DispatcherConfig.{or_default, adjusted}

-- At most so many.
abbrev pub AtMost : ℕ → ℤ → Type 0
AtMost k (pos n) = n ≤ k
AtMost k (negsuc n) = Unit

pub is_positive-or_default :
    (z d : ℤ) → is_negative z ≡ false → is_positive d ≡ true → is_positive (or_default z d) ≡ true
unfolding or_default
is_positive-or_default (pos zero) d h p = p
is_positive-or_default (pos (suc n)) d h p = refl
is_positive-or_default (negsuc n) d h p = absurd (cc)

pub AtMost-or_default : (k : ℕ) (z d : ℤ) → AtMost k z → AtMost k d → AtMost k (or_default z d)
unfolding or_default
AtMost-or_default k (pos zero) d h p = p
AtMost-or_default k (pos (suc n)) d h p = h
AtMost-or_default k (negsuc n) d h p = h

pub times-small : (k n : ℕ) → n * k < 2 ^ 63 → times k (pos n) ≡ pos (n * k)
unfolding times
times-small k n h = signed-small (n * k) h

pub is_positive-pos : (n : ℕ) → 0 < n → is_positive (pos n) ≡ true
is_positive-pos zero h = absurd (omega arith)
is_positive-pos (suc n) h = refl

pub times-32 :
    (z : ℤ) → is_positive z ≡ true → AtMost (2 ^ 58 - 1) z → is_positive (times 32 z) ≡ true
times-32 (pos zero) p h = absurd (cc)
times-32 (pos (suc n)) p h =
    ap is_positive (times-small 32 (suc n) (omega arith))
    ∙ is_positive-pos (suc n * 32) (omega arith)
times-32 (negsuc n) p h = absurd (cc)

pub times-2 :
    (z : ℤ)
    → is_positive z ≡ true
    → AtMost (2 ^ 62 - 1) z
    → (is_positive (times 2 z) ≡ true) × (less (times 2 z) z ≡ false)
times-2 (pos zero) p h = absurd (cc)
times-2 (pos (suc n)) p h =
    let e = times-small 2 (suc n) (omega arith) in
    let l : ltb (suc n * 2) (suc n) ≡ false = ground arith in
    (
      ap is_positive e ∙ is_positive-pos (suc n * 2) (omega arith),
      ap (λ z. less z (pos (suc n))) e ∙ l,
    )
times-2 (negsuc n) p h = absurd (cc)

pub adjusted-later :
    (force shutdown : ℤ)
    → is_positive force ≡ true
    → is_positive shutdown ≡ true
    → AtMost (2 ^ 62 - 1) shutdown
    → (is_positive (adjusted force shutdown) ≡ true)
      × (less (adjusted force shutdown) shutdown ≡ false)
unfolding adjusted
adjusted-later force shutdown f p h = elim (Bool-cases (less force shutdown)) [
  | inl e ↦ rw e (times-2 shutdown p h)
  | inr e ↦ rw e (f, e)
]

pub requeues-of :
    (z : ℤ) (b : Bool)
    → is_negative z ≡ false
    → (is_zero z && not b) ≡ false
    → (is_positive z ≡ true) ⊎ (b ≡ true)
requeues-of (pos zero) true n h = inr refl
requeues-of (pos zero) false n h = absurd (cc)
requeues-of (pos (suc k)) b n h = inl refl
requeues-of (negsuc k) b n h = absurd (cc)

-- The two poll intervals, with their defaults.
pub polling-positive :
    (poll max_poll : ℤ)
    → is_negative poll ≡ false
    → is_negative max_poll ≡ false
    → AtMost (2 ^ 58 - 1) poll
    → (is_positive (or_default poll (pos 100000000)) ≡ true)
      × (is_positive (or_default max_poll (times 32 (or_default poll (pos 100000000)))) ≡ true)
polling-positive poll max_poll n₁ n₂ small =
    let polls = is_positive-or_default poll (pos 100000000) n₁ refl in
    let bound = AtMost-or_default (2 ^ 58 - 1) poll (pos 100000000) small (omega arith) in
    (polls, is_positive-or_default max_poll _ n₂ (times-32 _ polls bound))

-- The two timeouts of a shutdown, with their defaults and the adjustment.
pub timeouts-positive :
    (shutdown force : ℤ)
    → is_negative shutdown ≡ false
    → is_negative force ≡ false
    → AtMost (2 ^ 62 - 1) shutdown
    → let wait = or_default shutdown (pos 30000000000) in
      let forced = adjusted (or_default force (times 2 wait)) wait in
      (is_positive wait ≡ true) × (is_positive forced ≡ true) × (less forced wait ≡ false)
timeouts-positive shutdown force n₁ n₂ small =
    let waits = is_positive-or_default shutdown (pos 30000000000) n₁ refl in
    let bound = AtMost-or_default (2 ^ 62 - 1) shutdown (pos 30000000000) small (omega arith) in
    let twice = times-2 (or_default shutdown (pos 30000000000)) waits bound in
    let forced = is_positive-or_default force _ n₂ twice.0 in
    let later = adjusted-later _ (or_default shutdown (pos 30000000000)) forced waits bound in
    (waits, later.0, later.1)

-- More than so many.
abbrev pub Exceeds : ℕ → ℤ → Type 0
Exceeds k (pos n) = k < n
Exceeds k (negsuc n) = ⊥

pub AtMost-cases : (k : ℕ) (z : ℤ) → AtMost k z ⊎ Exceeds k z
AtMost-cases k (pos n) = elim (Bool-cases (ltb k n)) [
  | inl over ↦ inr (ltb→lt k n over)
  | inr under ↦ inl (ground arith)
]
AtMost-cases k (negsuc n) = inl tt

-- A disjunction of tests, test by test.
pub or_split : (a b : Bool) → (a || b) ≡ true → (a ≡ true) ⊎ (b ≡ true)
or_split true b h = inl refl
or_split false b h = inr h

pub or_else : {C : Type 0} (a b : Bool) → (b ≡ true → C) → (a || b) ≡ true → (a ≡ true) ⊎ C
or_else true b f h = inl refl
or_else false b f h = inr (f h)

pub never_requeued : (z : ℤ) (b : Bool) → (is_zero z && not b) ≡ true → (z ≡ pos 0) × (b ≡ false)
never_requeued (pos zero) false h = (refl, refl)
never_requeued (pos zero) true h = absurd (cc)
never_requeued (pos (suc n)) b h = absurd (cc)
never_requeued (negsuc n) b h = absurd (cc)
