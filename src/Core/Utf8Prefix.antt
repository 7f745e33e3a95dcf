-- ===== src/Core/Utf8Prefix.antt =====
-- core/errors.go: the loop of `TruncateErrorMessage` that drops bytes from the end of a text.
use o4x.Prelude.{
  ℕ, zero, suc, ◌+◌, ◌≤◌, ◌<◌, ◌≡◌, refl, sym, ◌∙◌, ap, ◌≢◌, inl, inr, true, false, Option, none,
  some, [], ◌∷◌, ◌++◌, Text, length, take, length-take, Bool-cases, Option-cases, arith,
}
use o4x.Core.Truncate.{
  Utf8State, boundary, one_left, two_left, utf8_step, utf8_run, valid_string, drop_partial, suffix,
}

pub length-drop_partial-le : (n : ℕ) (msg : Text) → length (drop_partial n msg) ≤ n
unfolding drop_partial
length-drop_partial-le zero msg = omega arith
length-drop_partial-le (suc n) msg =
    ground (arith, length-take (suc n) msg, length-drop_partial-le n msg)

pub utf8_run-append :
    (q : Option Utf8State) (s t : Text) → utf8_run q (s ++ t) ≡ utf8_run (utf8_run q s) t
unfolding utf8_run
utf8_run-append none s t = refl
utf8_run-append (some q) [] t = refl
utf8_run-append (some q) (b ∷ s) t = utf8_run-append (utf8_step q b) s t

-- At most so many bytes of the current character have been read.
abbrev pub back : Utf8State → ℕ
back boundary = 0
back one_left = 3
back two_left = 2
back _ = 1

pub back-utf8_step :
    (q r : Utf8State) (b : ℕ) → utf8_step q b ≡ some r → r ≢ boundary → suc (back q) ≤ back r
unfolding utf8_step
back-utf8_step boundary r b h n = ground arith
back-utf8_step one_left r b h n = ground arith
back-utf8_step _ r b h n = ground arith

-- `msg[:n+1]` ends in one more byte than `msg[:n]`.
pub take-suc : (n : ℕ) (s : Text) → n < length s → (b : ℕ) × (take (suc n) s ≡ take n s ++ (b ∷ []))
take-suc zero [] h = absurd (omega arith)
take-suc zero (c ∷ s) h = (c, refl)
take-suc (suc n) [] h = absurd (omega arith)
take-suc (suc n) (c ∷ s) h = let (b, e) = take-suc n s (omega arith) in (b, ap (λ t. c ∷ t) e)

pub valid_string-of_boundary :
    (s : Text) → utf8_run (some boundary) s ≡ some boundary → valid_string s ≡ true
unfolding valid_string
valid_string-of_boundary s h = rw h

pub boundary-of_valid_string :
    (s : Text) → valid_string s ≡ true → utf8_run (some boundary) s ≡ some boundary
unfolding valid_string
boundary-of_valid_string s h = ground arith

-- The last byte of `msg[:n+1]`, as a step of the scan.
pub last_step :
    (q : Utf8State) (s : Text) (b : ℕ)
    → utf8_run (some boundary) (s ++ (b ∷ [])) ≡ some q
    → (p : Utf8State) × (utf8_run (some boundary) s ≡ some p) × (utf8_step p b ≡ some q)
unfolding utf8_run
last_step q s b h = elim (Option-cases (utf8_run (some boundary) s)) [
  | inl e ↦ absurd (cc (e, utf8_run-append (some boundary) s (b ∷ [])))
  | inr (p, e) ↦ (
    p,
    e,
    run_one p b q (
        ap (λ r. utf8_run r (b ∷ [])) (sym e)
        ∙ (sym (utf8_run-append (some boundary) s (b ∷ [])) ∙ h)),
  )
]
  where
    run_one :
        (p : Utf8State) (b : ℕ) (q : Utf8State)
        → utf8_run (some p) (b ∷ []) ≡ some q
        → utf8_step p b ≡ some q
    run_one p b q h = go (utf8_step p b) h
      where
        go : (o : Option Utf8State) → utf8_run o [] ≡ some q → o ≡ some q
        go none h = cc
        go (some r) h = h

pub drop_partial_done :
    (n : ℕ) (msg : Text)
    → valid_string (take (suc n) msg) ≡ true
    → drop_partial (suc n) msg ≡ take (suc n) msg
unfolding drop_partial
drop_partial_done n msg h = rw (h, drop_partial)

pub drop_partial_again :
    (n : ℕ) (msg : Text)
    → valid_string (take (suc n) msg) ≡ false
    → drop_partial (suc n) msg ≡ drop_partial n msg
unfolding drop_partial
drop_partial_again n msg h = rw (h, drop_partial)

-- Where the scan of `msg[:n]` stands at `q`, the loop drops at most `back q` bytes.
pub drop_partial_keeps :
    (n : ℕ) (msg : Text) (q : Utf8State)
    → n ≤ length msg
    → utf8_run (some boundary) (take n msg) ≡ some q
    → n ≤ length (drop_partial n msg) + back q
drop_partial_keeps zero msg q le h = omega arith
drop_partial_keeps (suc n) msg q le h = elim (Bool-cases (valid_string (take (suc n) msg))) [
  | inl valid ↦ rw (drop_partial_done n msg valid) (omega (arith, length-take (suc n) msg))
  | inr partial ↦
      let (b, e) = take-suc n msg (omega arith) in
      let (p, before, st) =
        last_step q (take n msg) b (ap (utf8_run (some boundary)) (sym e) ∙ h) in
      rw (drop_partial_again n msg partial) (
        omega (
          arith,
          drop_partial_keeps n msg p (omega arith) before,
          back-utf8_step p q b st (λ at_q.
              cc (partial, valid_string-of_boundary (take (suc n) msg) (h ∙ ap some at_q))),
        ))
]

pub take-length-take : (n : ℕ) (s : Text) → take n s ≡ take (length (take n s)) s
take-length-take zero s = refl
take-length-take (suc n) [] = refl
take-length-take (suc n) (c ∷ s) = ap (λ t. c ∷ t) (take-length-take n s)

-- What the loop leaves is valid, and is some `msg[:k]`.
pub drop_partial_prefix :
    (n : ℕ) (msg : Text)
    → (valid_string (drop_partial n msg) ≡ true)
      × (drop_partial n msg ≡ take (length (drop_partial n msg)) msg)
drop_partial_prefix zero msg = unfold drop_partial valid_string utf8_run in (refl, refl)
drop_partial_prefix (suc n) msg = elim (Bool-cases (valid_string (take (suc n) msg))) [
  | inl valid ↦ rw (drop_partial_done n msg valid) (valid, take-length-take (suc n) msg)
  | inr partial ↦ rw (drop_partial_again n msg partial) (drop_partial_prefix n msg)
]

-- A prefix of a text that scans is a text that scans.
pub take-scans :
    (n : ℕ) (s : Text) (q r : Utf8State)
    → utf8_run (some q) s ≡ some r
    → (p : Utf8State) × (utf8_run (some q) (take n s) ≡ some p)
unfolding utf8_run
take-scans zero s q r h = (q, refl)
take-scans (suc n) [] q r h = (q, refl)
take-scans (suc n) (b ∷ s) q r h = elim (Option-cases (utf8_step q b)) [
  | inl e ↦ absurd (cc (ap (λ o. utf8_run o s) (sym e) ∙ h))
  | inr (p, e) ↦
      let (p', h') = take-scans n s p r (ap (λ o. utf8_run o s) (sym e) ∙ h) in
      (p', ap (λ o. utf8_run o (take n s)) e ∙ h')
]

pub valid_string-append :
    (s t : Text) → valid_string s ≡ true → valid_string t ≡ true → valid_string (s ++ t) ≡ true
valid_string-append s t hs ht = valid_string-of_boundary (s ++ t) (
    utf8_run-append (some boundary) s t
    ∙ (ap (λ r. utf8_run r t) (boundary-of_valid_string s hs) ∙ boundary-of_valid_string t ht))

pub valid_string-suffix : valid_string suffix ≡ true
unfolding valid_string
valid_string-suffix = refl

-- No prefix is valid but the empty one, so the loop runs to the front.
pub drop_partial_bad_start :
    (n b : ℕ) (s : Text) → utf8_step boundary b ≡ none → drop_partial n (b ∷ s) ≡ []
unfolding utf8_run
drop_partial_bad_start zero b s h = unfold drop_partial in refl
drop_partial_bad_start (suc n) b s h =
    drop_partial_again n (b ∷ s) (bad (take n s)) ∙ drop_partial_bad_start n b s h
  where
    bad : (t : Text) → valid_string (b ∷ t) ≡ false
    bad t = elim (Bool-cases (valid_string (b ∷ t))) [
      | inl v ↦ absurd (cc (ap (λ r. utf8_run r t) (sym h) ∙ boundary-of_valid_string (b ∷ t) v))
      | inr e ↦ e
    ]
