-- ===== src/Core/TableNames.antt =====
-- core/model.go: which table names `ValidateTableName` lets through.
use o4x.Prelude.{
  ℕ, zero, suc, ◌≤◌, length, ◌≡◌, refl, sym, ap, ◌∙◌, ◌↔◌, ◌⊎◌, inl, inr, Bool, true, false, ◌||◌,
  not, [], ◌∷◌, ◌++◌, Text, All, arith,
}
use mathlib.Core.Path.{subst}
use mathlib.Core.List.{append-nil}
use o4x.Core.Errors.{nil, sentinel, invalid_table_name}
use o4x.Core.Regex.{
  Regex, ByteClass, one, seq, star, start_class, word_class, dot_class, in_class, Matches, at_empty,
  at_one, at_seq, at_left, at_right, star_end, star_more, match_string, match_string_iff, seq_inv,
  alt_inv, empty_inv, optional,
}
use o4x.Core.TableName.{
  identifier, valid_table_name_pattern, validate_table_name, is_empty, error_if,
}

-- A letter or `_`, then letters, digits and `_`.
abbrev pub IsIdentifier : Text → Type 0
IsIdentifier [] = ⊥
IsIdentifier (b ∷ s) = (in_class start_class b ≡ true) × All (λ c. in_class word_class c ≡ true) s

-- `table` or `schema.table`.
pub data IsTableName (name : Text) : Type 0 where
  plain : IsIdentifier name → IsTableName name
  qualified :
      (schema table : Text)
      → IsIdentifier schema
      → IsIdentifier table
      → name ≡ schema ++ (b'.' ∷ table)
      → IsTableName name

abbrev Words : Text → Type 0
Words = All (λ c. in_class word_class c ≡ true)

-- One round of the star is one byte.
star_inv :
    {r : Regex} {s : Text}
    → Matches (star r) s
    → (s ≡ [])
      ⊎ ((b : ℕ) × (t : Text) × (u : Text) × Matches r (b ∷ t)
          × Matches (star r) u
          × (s ≡ b ∷ (t ++ u)))
star_inv (star_end e) = inl e
star_inv (star_more b t u m n e) = inr (b, t, u, m, n, e)

Words-star : (s : Text) → Words s → Matches (star (one word_class)) s
Words-star [] h = star_end refl
Words-star (b ∷ s) h = star_more b [] s (at_one b h.0 refl) (Words-star s h.1) refl

one_inv :
    {c : ByteClass} {s : Text} → Matches (one c) s → (b : ℕ) × (in_class c b ≡ true) × (s ≡ b ∷ [])
one_inv (at_one b h e) = (b, h, e)

star-Words : (n : ℕ) (s : Text) → length s ≤ n → Matches (star (one word_class)) s → Words s
star-Words n [] h m = tt
star-Words zero (c ∷ s) h m = absurd (omega arith)
star-Words (suc n) (c ∷ s) h m = elim (star_inv m) [
  | inl e ↦ absurd (cc)
  | inr (b, t, u, one_m, more, e) ↦
      let (b', holds, e') = one_inv one_m in
      let same : c ∷ s ≡ b' ∷ u = e ∙ ap (λ v. v ++ u) e' in
      let rest : s ≡ u = cc in
      let head : c ≡ b' = cc in
      (
        ap (in_class word_class) head ∙ holds,
        star-Words n s (omega arith) (subst (Matches (star (one word_class))) (sym rest) more),
      )
]

identifier-IsIdentifier : (s : Text) → Matches identifier s → IsIdentifier s
identifier-IsIdentifier s m =
    let (s', t, first, rest, e) = seq_inv m in
    let (b, holds, e') = one_inv first in
    subst IsIdentifier (sym (e ∙ ap (λ v. v ++ t) e'))
      (holds, star-Words (length t) t (omega arith) rest)

IsIdentifier-identifier : (s : Text) → IsIdentifier s → Matches identifier s
IsIdentifier-identifier [] h = absurd h
IsIdentifier-identifier (b ∷ s) h = at_seq (b ∷ []) s (at_one b h.0 refl) (Words-star s h.1) refl

IsIdentifier-Words : (s : Text) → IsIdentifier s → Words s
IsIdentifier-Words [] h = absurd h
IsIdentifier-Words (b ∷ s) h = (word_of_start b h.0, h.1)
  where
    word_of_start : (b : ℕ) → in_class start_class b ≡ true → in_class word_class b ≡ true
    word_of_start b h = unfold in_class in ground arith

pattern_iff : (name : Text) → Matches valid_table_name_pattern name ↔ IsTableName name
unfolding valid_table_name_pattern
pattern_iff name = (there, back)
  where
    there :
        Matches (seq identifier (optional (seq (one dot_class) identifier))) name → IsTableName name
    there m =
        let (schema, rest, first, second, e) = seq_inv m in
        elim (alt_inv second) [
          | inl nothing ↦ plain (
              subst IsIdentifier
                (sym (append-nil schema)
                  ∙ (ap (λ r. schema ++ r) (sym (empty_inv nothing)) ∙ sym e))
                (identifier-IsIdentifier schema first))
          | inr dotted ↦
              let (d, table, dot_m, last, e') = seq_inv dotted in
              let (b, holds, eb) = one_inv dot_m in
              qualified schema table (identifier-IsIdentifier schema first)
                (identifier-IsIdentifier table last)
                (e
                  ∙ ap (λ r. schema ++ r)
                      (e' ∙ (ap (λ v. v ++ table) eb ∙ ap (λ c. c ∷ table) (is_dot b holds))))
        ]
      where
        is_dot : (b : ℕ) → in_class dot_class b ≡ true → b ≡ b'.'
        is_dot b h = unfold in_class in ground arith

    back :
        IsTableName name → Matches (seq identifier (optional (seq (one dot_class) identifier))) name
    back (plain h) =
        at_seq name [] (IsIdentifier-identifier name h) (at_left (at_empty refl))
          (sym (append-nil name))
    back (qualified schema table hs ht e) =
        at_seq schema (b'.' ∷ table) (IsIdentifier-identifier schema hs)
          (at_right (
            at_seq (b'.' ∷ []) table (at_one b'.' dot_dot refl) (IsIdentifier-identifier table ht)
              refl))
          e
      where
        dot_dot : in_class dot_class b'.' ≡ true
        dot_dot = unfold in_class in refl

not-IsTableName-nil : ¬ IsTableName []
not-IsTableName-nil (plain h) = h
not-IsTableName-nil (qualified schema table hs ht e) = no_parts schema hs e
  where
    no_parts : (s : Text) → IsIdentifier s → [] ≡ s ++ (b'.' ∷ table) → ⊥
    no_parts [] h e = h
    no_parts (b ∷ s) h e = cc

validate_cases :
    (name : Text) (matched : Bool)
    → (matched ≡ true → IsTableName name)
    → (IsTableName name → matched ≡ true)
    → (error_if (is_empty name || not matched) (sentinel invalid_table_name) ≡ nil)
      ↔ IsTableName name
validate_cases [] matched there back = (λ h. absurd (cc), λ h. absurd (not-IsTableName-nil h))
validate_cases (b ∷ s) true there back = (λ _. there refl, λ _. refl)
validate_cases (b ∷ s) false there back = (λ h. absurd (cc), λ h. absurd (cc (back h)))

validate_iff : (name : Text) → (validate_table_name name ≡ nil) ↔ IsTableName name
unfolding validate_table_name
validate_iff name =
    let (sound, complete) = match_string_iff valid_table_name_pattern name in
    let (there, back) = pattern_iff name in
    validate_cases name (match_string valid_table_name_pattern name) (λ h. there (sound h))
      (λ h. complete (back h))

validate_answers :
    (name : Text)
    → (validate_table_name name ≡ nil) ⊎ (validate_table_name name ≡ sentinel invalid_table_name)
unfolding validate_table_name
validate_answers name = two (is_empty name || not (match_string valid_table_name_pattern name))
  where
    two :
        (b : Bool)
        → (error_if b (sentinel invalid_table_name) ≡ nil)
          ⊎ (error_if b (sentinel invalid_table_name) ≡ sentinel invalid_table_name)
    two true = inr refl
    two false = inl refl

-- `ValidateTableName` accepts exactly the identifiers and the pairs of identifiers with a dot between,
-- and answers every other name with `ErrInvalidTableName`.
pub validate_table_name_decides :
    (name : Text)
    → ((validate_table_name name ≡ nil) × IsTableName name)
      ⊎ ((validate_table_name name ≡ sentinel invalid_table_name) × ¬ IsTableName name)
validate_table_name_decides name = elim (validate_answers name) [
  | inl fine ↦ inl (fine, (validate_iff name).0 fine)
  | inr bad ↦ inr (bad, λ h. cc (sym bad ∙ (validate_iff name).1 h))
]
