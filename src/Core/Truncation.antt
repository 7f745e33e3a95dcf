-- ===== src/Core/Truncation.antt =====
-- core/errors.go: what `TruncateErrorMessage` keeps of a message.
use o4x.Prelude.{
  ℕ, ◌≤◌, ◌<◌, ◌≡◌, ◌∙◌, ap, ◌⊎◌, inl, inr, true, none, ◌∷◌, ◌++◌, Text, length, take, arith,
  dec_lt,
}
use o4x.Core.Truncate.{
  Utf8State, boundary, one_left, two_left, utf8_step, valid_string, drop_partial, cut_message,
  suffix, ReplaceAll, sanitize_sensitive_info, truncate_error_message,
}
use o4x.Core.Utf8Prefix.{
  length-drop_partial-le, back, boundary-of_valid_string, drop_partial_keeps, drop_partial_prefix,
  take-scans, valid_string-append, valid_string-suffix, drop_partial_bad_start,
}

cut_message_fits : (msg : Text) → length msg ≤ 4000 → cut_message msg ≡ msg
unfolding cut_message
cut_message_fits msg h = ground arith

cut_message_long :
    (msg : Text) → 4000 < length msg → cut_message msg ≡ drop_partial 3985 msg ++ suffix
unfolding cut_message
cut_message_long msg h = ground arith

long_keeps :
    (msg : Text)
    → valid_string msg ≡ true
    → 4000 < length msg
    → 3982 ≤ length (drop_partial 3985 msg)
long_keeps msg valid h =
    let (q, scans) = take-scans 3985 msg boundary boundary (boundary-of_valid_string msg valid) in
    omega (arith, drop_partial_keeps 3985 msg q (omega arith) scans, back-le q)
  where
    back-le : (q : Utf8State) → back q ≤ 3
    back-le boundary = omega arith
    back-le one_left = omega arith
    back-le two_left = omega arith
    back-le _ = omega arith

-- What a message that is valid UTF-8 turns into: valid UTF-8, which is the message itself if it fits,
-- and otherwise one of its prefixes with the suffix.
abbrev pub CutWell : Text → Text → Type 0
CutWell msg out =
    (valid_string out ≡ true)
    × (((length msg ≤ 4000) × (out ≡ msg))
        ⊎ ((4000 < length msg)
            × ((k : ℕ) × (out ≡ take k msg ++ suffix) × (3982 ≤ k) × (k ≤ 3985))))

cut_message-CutWell : (msg : Text) → valid_string msg ≡ true → CutWell msg (cut_message msg)
cut_message-CutWell msg valid = elim (dec_lt 4000 (length msg)) [
  | no fits ↦
      let small : length msg ≤ 4000 = omega arith in
      let same = cut_message_fits msg small in (ap valid_string same ∙ valid, inl (small, same))
  | yes long ↦
      let (part, prefix) = drop_partial_prefix 3985 msg in
      let e = cut_message_long msg long in
      (
        ap valid_string e
            ∙ valid_string-append (drop_partial 3985 msg) suffix part valid_string-suffix,
        inr (
          long,
          (
            length (drop_partial 3985 msg),
            e ∙ ap (λ t. t ++ suffix) prefix,
            long_keeps msg valid long,
            length-drop_partial-le 3985 msg,
          ),
        ),
      )
]

-- If the redacted message is valid UTF-8, the stored text is valid UTF-8: it is the redacted message
-- if that has at most 4000 bytes, and otherwise a prefix of it with the suffix, where the prefix has
-- 3985 bytes less at most 3 of a character that would be cut.
pub truncate_error_message-CutWell :
    (replace_all : ReplaceAll) (msg : Text)
    → valid_string (sanitize_sensitive_info replace_all msg) ≡ true
    → CutWell (sanitize_sensitive_info replace_all msg) (truncate_error_message replace_all msg)
unfolding truncate_error_message
truncate_error_message-CutWell replace_all msg valid =
    cut_message-CutWell (sanitize_sensitive_info replace_all msg) valid

-- A redacted message of more than 4000 bytes whose first byte begins no UTF-8 character loses all of
-- its content: the stored text is the suffix alone.
pub truncate_error_message_bad_start :
    (replace_all : ReplaceAll) (msg : Text) (b : ℕ) (s : Text)
    → sanitize_sensitive_info replace_all msg ≡ b ∷ s
    → utf8_step boundary b ≡ none
    → 4000 < length (b ∷ s)
    → truncate_error_message replace_all msg ≡ suffix
unfolding truncate_error_message
truncate_error_message_bad_start replace_all msg b s e bad long =
    ap cut_message e
    ∙ (cut_message_long (b ∷ s) long ∙ ap (λ t. t ++ suffix) (drop_partial_bad_start 3985 b s bad))
