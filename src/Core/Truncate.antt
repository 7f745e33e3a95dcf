-- ===== src/Core/Truncate.antt =====
-- core/errors.go: `TruncateErrorMessage`, with `utf8.ValidString` of the standard library as an
-- automaton over bytes. `regexp.ReplaceAllString` is the parameter `replace_all`.
use o4x.Prelude.{
  ℕ, zero, suc, ◌-◌, Bool, true, false, ◌&&◌, Option, none, some, List, [], ◌∷◌, ◌++◌, Text, codes,
  leb, ltb, ◌==◌, if◌then◌else◌, length, take,
}

-- The five entries of `sensitivePatterns`, in their order.
pub data SensitivePattern : Type 0 where
  key_value aws_secret jwt connection_string bearer_header : SensitivePattern

unfoldable pub sensitive_patterns : List SensitivePattern
sensitive_patterns = key_value ∷ aws_secret ∷ jwt ∷ connection_string ∷ bearer_header ∷ []

-- `pattern.NumSubexp()`: the groups that the expression's text opens.
unfoldable pub num_subexp : SensitivePattern → ℕ
num_subexp key_value = 2
num_subexp aws_secret = 2
num_subexp jwt = 1
num_subexp connection_string = 3
num_subexp bearer_header = 1

-- `pattern.ReplaceAllString(src, repl)`
abbrev pub ReplaceAll : Type 0
ReplaceAll = SensitivePattern → Text → Text → Text

unfoldable pub redact : ReplaceAll → SensitivePattern → Text → Text
unfolding num_subexp
redact replace_all p result =
    if num_subexp p == 2
    then replace_all p result (codes "${1}=***REDACTED***")
    else replace_all p result (codes "***REDACTED***")

redact_each : ReplaceAll → List SensitivePattern → Text → Text
unfolding redact
redact_each replace_all [] result = result
redact_each replace_all (p ∷ ps) result = redact_each replace_all ps (redact replace_all p result)

unfoldable pub sanitize_sensitive_info : ReplaceAll → Text → Text
unfolding redact_each sensitive_patterns
sanitize_sensitive_info replace_all msg = redact_each replace_all sensitive_patterns msg

-- Where a scan of UTF-8 stands: between characters, or with so many bytes of one left. The four
-- last ones restrict the second byte (no overlong forms, no surrogates, at most U+10FFFF).
pub data Utf8State : Type 0 where
  boundary : Utf8State
  one_left two_left three_left : Utf8State
  after_e0 after_ed after_f0 after_f4 : Utf8State

abbrev within : ℕ → ℕ → ℕ → Bool
within lo hi b = leb lo b && leb b hi

abbrev after_first : ℕ → Option Utf8State
after_first b =
    if ltb b 0x80
    then some boundary
    else if within 0xc2 0xdf b
    then some one_left
    else if b == 0xe0
    then some after_e0
    else if b == 0xed
    then some after_ed
    else if within 0xe1 0xef b
    then some two_left
    else if b == 0xf0
    then some after_f0
    else if within 0xf1 0xf3 b
    then some three_left
    else if b == 0xf4
    then some after_f4
    else none

unfoldable pub utf8_step : Utf8State → ℕ → Option Utf8State
utf8_step boundary b = after_first b
utf8_step one_left b = if within 0x80 0xbf b then some boundary else none
utf8_step two_left b = if within 0x80 0xbf b then some one_left else none
utf8_step three_left b = if within 0x80 0xbf b then some two_left else none
utf8_step after_e0 b = if within 0xa0 0xbf b then some one_left else none
utf8_step after_ed b = if within 0x80 0x9f b then some one_left else none
utf8_step after_f0 b = if within 0x90 0xbf b then some two_left else none
utf8_step after_f4 b = if within 0x80 0x8f b then some two_left else none

unfoldable pub utf8_run : Option Utf8State → Text → Option Utf8State
utf8_run none s = none
utf8_run (some q) [] = some q
utf8_run (some q) (b ∷ s) = utf8_run (utf8_step q b) s

abbrev at_boundary : Option Utf8State → Bool
at_boundary (some boundary) = true
at_boundary _ = false

-- `utf8.ValidString(s)`
unfoldable pub valid_string : Text → Bool
unfolding utf8_run utf8_step
valid_string s = at_boundary (utf8_run (some boundary) s)

abbrev pub max_error_message_length : ℕ
max_error_message_length = 4000

abbrev pub suffix : Text
suffix = codes "... (truncated)"

-- The loop that drops the last byte of `msg[:n]` until the rest is empty or valid.
unfoldable pub drop_partial : ℕ → Text → Text
unfolding valid_string
drop_partial zero msg = []
drop_partial (suc n) msg = elim (valid_string (take (suc n) msg)) [
  | true ↦ take (suc n) msg
  | false ↦ drop_partial n msg
]

-- The part of `TruncateErrorMessage` behind the redaction.
unfoldable pub cut_message : Text → Text
cut_message msg =
    if leb (length msg) max_error_message_length
    then msg
    else drop_partial (max_error_message_length - length suffix) msg ++ suffix

unfoldable pub truncate_error_message : ReplaceAll → Text → Text
truncate_error_message replace_all msg = cut_message (sanitize_sensitive_info replace_all msg)
