-- ===== src/Core/Regex.antt =====
-- Regular expressions over bytes: what they match, and a matcher that decides it.
use o4x.Prelude.{
  ℕ, ◌≡◌, refl, sym, ap, ◌∙◌, ◌↔◌, ◌⊎◌, inl, inr, Bool, true, false, ◌&&◌, ◌||◌, [], ◌∷◌, ◌++◌,
  Text, leb, ◌==◌, if◌then◌else◌, arith,
}

-- The byte classes `[a-zA-Z_]`, `[a-zA-Z0-9_]` and `\.`.
pub data ByteClass : Type 0 where
  start_class word_class dot_class : ByteClass

abbrev pub is_letter : ℕ → Bool
is_letter b = (leb b'a' b && leb b b'z') || (leb b'A' b && leb b b'Z')

abbrev pub is_digit : ℕ → Bool
is_digit b = leb b'0' b && leb b b'9'

unfoldable pub in_class : ByteClass → ℕ → Bool
in_class start_class b = is_letter b || b == b'_'
in_class word_class b = is_letter b || (is_digit b || b == b'_')
in_class dot_class b = b == b'.'

pub data Regex : Type 0 where
  never : Regex
  empty : Regex
  one : ByteClass → Regex
  seq : Regex → Regex → Regex
  alt : Regex → Regex → Regex
  star : Regex → Regex

abbrev pub optional : Regex → Regex
optional r = alt empty r

-- The texts that an expression matches from end to end.
pub data Matches : Regex → Text → Type 0 where
  at_empty : {s : Text} → s ≡ [] → Matches empty s
  at_one : {c : ByteClass} {s : Text} (b : ℕ) → in_class c b ≡ true → s ≡ b ∷ [] → Matches (one c) s
  at_seq :
      {r q : Regex} {u : Text} (s t : Text)
      → Matches r s
      → Matches q t
      → u ≡ s ++ t
      → Matches (seq r q) u
  at_left : {r q : Regex} {s : Text} → Matches r s → Matches (alt r q) s
  at_right : {r q : Regex} {s : Text} → Matches q s → Matches (alt r q) s
  star_end : {r : Regex} {s : Text} → s ≡ [] → Matches (star r) s
  star_more :
      {r : Regex} {u : Text} (b : ℕ) (s t : Text)
      → Matches r (b ∷ s)
      → Matches (star r) t
      → u ≡ b ∷ (s ++ t)
      → Matches (star r) u

unfoldable pub nullable : Regex → Bool
nullable never = false
nullable empty = true
nullable (one c) = false
nullable (seq r q) = nullable r && nullable q
nullable (alt r q) = nullable r || nullable q
nullable (star r) = true

-- What is left to match behind the byte `b`.
unfoldable pub deriv : ℕ → Regex → Regex
deriv b never = never
deriv b empty = never
deriv b (one c) = if in_class c b then empty else never
deriv b (seq r q) =
    let first = seq (deriv b r) q in
    let second = deriv b q in if nullable r then alt first second else first
deriv b (alt r q) = alt (deriv b r) (deriv b q)
deriv b (star r) = seq (deriv b r) (star r)

unfoldable pub match_string : Regex → Text → Bool
match_string r [] = nullable r
match_string r (b ∷ s) = match_string (deriv b r) s

nullable-Matches : (r : Regex) → nullable r ≡ true → Matches r []
unfolding nullable
nullable-Matches never h = absurd (cc)
nullable-Matches empty h = at_empty refl
nullable-Matches (one c) h = absurd (cc)
nullable-Matches (seq r q) h =
    let both : (nullable r ≡ true) × (nullable q ≡ true) = ground arith in
    at_seq [] [] (nullable-Matches r both.0) (nullable-Matches q both.1) refl
nullable-Matches (alt r q) h =
    let either : (nullable r ≡ true) ⊎ (nullable q ≡ true) = ground arith in
    elim either [ inl e ↦ at_left (nullable-Matches r e) | inr e ↦ at_right (nullable-Matches q e) ]
nullable-Matches (star r) h = star_end refl

append-eq-nil : (s t : Text) → [] ≡ s ++ t → (s ≡ []) × (t ≡ [])
append-eq-nil [] t h = (refl, sym h)
append-eq-nil (b ∷ s) t h = absurd (cc)

Matches-nullable : {r : Regex} {s : Text} → Matches r s → s ≡ [] → nullable r ≡ true
unfolding nullable
Matches-nullable (at_empty e) h = refl
Matches-nullable (at_one b m e) h = absurd (cc)
Matches-nullable (at_seq s t m n e) h =
    let (es, et) = append-eq-nil s t (sym h ∙ e) in
    let left = Matches-nullable m es in let right = Matches-nullable n et in ground arith
Matches-nullable (at_left m) h = let left = Matches-nullable m h in ground arith
Matches-nullable (at_right m) h = let right = Matches-nullable m h in ground arith
Matches-nullable (star_end e) h = refl
Matches-nullable (star_more b s t m n e) h = refl

pub seq_inv :
    {r q : Regex} {u : Text}
    → Matches (seq r q) u
    → (s : Text) × (t : Text) × Matches r s × Matches q t × (u ≡ s ++ t)
seq_inv (at_seq s t m n e) = (s, t, m, n, e)

pub alt_inv : {r q : Regex} {s : Text} → Matches (alt r q) s → Matches r s ⊎ Matches q s
alt_inv (at_left m) = inl m
alt_inv (at_right m) = inr m

pub empty_inv : {s : Text} → Matches empty s → s ≡ []
empty_inv (at_empty e) = e

not-Matches-never : {s : Text} → ¬ Matches never s
not-Matches-never m = elim m [ ]

first_or_second :
    (n : Bool) (r q : Regex) (s : Text)
    → Matches (if n then alt r q else r) s
    → Matches r s ⊎ ((n ≡ true) × Matches q s)
first_or_second true r q s m = elim (alt_inv m) [ inl a ↦ inl a | inr b ↦ inr (refl, b) ]
first_or_second false r q s m = inl m

one_of : (n : Bool) (s : Text) → Matches (if n then empty else never) s → (n ≡ true) × (s ≡ [])
one_of true s m = (refl, empty_inv m)
one_of false s m = absurd (not-Matches-never m)

deriv-Matches : (r : Regex) (b : ℕ) (s : Text) → Matches (deriv b r) s → Matches r (b ∷ s)
unfolding deriv
deriv-Matches never b s m = absurd (not-Matches-never m)
deriv-Matches empty b s m = absurd (not-Matches-never m)
deriv-Matches (one c) b s m =
    let (holds, e) = one_of (in_class c b) s m in at_one b holds (ap (λ t. b ∷ t) e)
deriv-Matches (seq r q) b s m =
    elim (first_or_second (nullable r) (seq (deriv b r) q) (deriv b q) s m) [
      | inl first ↦
          let (s', t, m', n, e) = seq_inv first in
          at_seq (b ∷ s') t (deriv-Matches r b s' m') n (ap (λ u. b ∷ u) e)
      | inr (nothing, second) ↦
          at_seq [] (b ∷ s) (nullable-Matches r nothing) (deriv-Matches q b s second) refl
    ]
deriv-Matches (alt r q) b s m = elim (alt_inv m) [
  | inl m' ↦ at_left (deriv-Matches r b s m')
  | inr m' ↦ at_right (deriv-Matches q b s m')
]
deriv-Matches (star r) b s m =
    let (s', t, m', n, e) = seq_inv m in
    star_more b s' t (deriv-Matches r b s' m') n (ap (λ u. b ∷ u) e)

in_first : (n : Bool) (r q : Regex) (s : Text) → Matches r s → Matches (if n then alt r q else r) s
in_first true r q s m = at_left m
in_first false r q s m = m

in_second :
    (n : Bool) (r q : Regex) (s : Text)
    → n ≡ true
    → Matches q s
    → Matches (if n then alt r q else r) s
in_second true r q s h m = at_right m
in_second false r q s h m = absurd (cc)

in_one : (n : Bool) (s : Text) → n ≡ true → s ≡ [] → Matches (if n then empty else never) s
in_one true s h e = at_empty e
in_one false s h e = absurd (cc)

cons-eq : (a b : ℕ) (s t : Text) → ◌≡◌ {A = Text} (a ∷ s) (b ∷ t) → (a ≡ b) × (s ≡ t)
cons-eq a b s t h = (cc, cc)

Matches-deriv :
    {r : Regex} {u : Text} (b : ℕ) (s : Text) → Matches r u → u ≡ b ∷ s → Matches (deriv b r) s
unfolding deriv
Matches-deriv b s (at_empty e) h = absurd (cc)
Matches-deriv b s (at_one {c} a m e) h =
    let (ab, es) = cons-eq a b [] s (sym e ∙ h) in
    in_one (in_class c b) s (ap (in_class c) (sym ab) ∙ m) (sym es)
Matches-deriv b s (at_seq {r} {q} [] t m n e) h =
    in_second (nullable r) (seq (deriv b r) q) (deriv b q) s (Matches-nullable m refl)
      (Matches-deriv b s n (sym e ∙ h))
Matches-deriv b s (at_seq {r} {q} (a ∷ s') t m n e) h =
    let (ab, es) = cons-eq a b (s' ++ t) s (sym e ∙ h) in
    in_first (nullable r) (seq (deriv b r) q) (deriv b q) s
      (at_seq s' t (Matches-deriv b s' m (ap (λ c. c ∷ s') ab)) n (sym es))
Matches-deriv b s (at_left m) h = at_left (Matches-deriv b s m h)
Matches-deriv b s (at_right m) h = at_right (Matches-deriv b s m h)
Matches-deriv b s (star_end e) h = absurd (cc)
Matches-deriv b s (star_more a s' t m n e) h =
    let (ab, es) = cons-eq a b (s' ++ t) s (sym e ∙ h) in
    at_seq s' t (Matches-deriv b s' m (ap (λ c. c ∷ s') ab)) n (sym es)

-- The matcher decides what the expression matches.
pub match_string_iff : (r : Regex) (s : Text) → (match_string r s ≡ true) ↔ Matches r s
unfolding match_string
match_string_iff r [] = (nullable-Matches r, λ m. Matches-nullable m refl)
match_string_iff r (b ∷ s) =
    let (sound, complete) = match_string_iff (deriv b r) s in
    (λ h. deriv-Matches r b s (sound h), λ m. complete (Matches-deriv b s m refl))
