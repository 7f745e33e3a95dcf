-- ===== src/Tests/CoreRuns.antt =====
-- core/errors.go and core/model.go on sample errors and texts.
use mathlib.Core.Path.{refl}
use o4x.Prelude.{ℕ, ◌≡◌, ◌⊎◌, ◌∷◌, Text, codes, arith, length, replicate, length-replicate}
use o4x.Core.Errors.{nil, sentinel, invalid_table_name}
use o4x.Core.Truncate.{
  ReplaceAll, redact, sanitize_sensitive_info, truncate_error_message, suffix, valid_string,
  utf8_step,
}
use o4x.Core.Truncation.{CutWell, truncate_error_message-CutWell, truncate_error_message_bad_start}
use o4x.Core.TableName.{validate_table_name}
use o4x.Core.TableNames.{IsTableName, validate_table_name_decides}

-- An expression that matches nothing.
abbrev keep : ReplaceAll
keep pattern src repl = src

abbrev long_message : Text
long_message = replicate 4001 b'a'

abbrev filler : Text
filler = replicate 4000 b'a'

abbrev bad_message : Text
bad_message = 0xff ∷ filler

truncate_error_message-CutWell_example :
    CutWell (sanitize_sensitive_info keep long_message) (truncate_error_message keep long_message)
unfolding sanitize_sensitive_info redact valid_string
truncate_error_message-CutWell_example = truncate_error_message-CutWell keep long_message refl

truncate_error_message_bad_start_example : truncate_error_message keep bad_message ≡ suffix
unfolding sanitize_sensitive_info redact utf8_step
truncate_error_message_bad_start_example =
    truncate_error_message_bad_start keep bad_message 0xff filler refl refl
      (let long : length filler ≡ 4000 = length-replicate {A = ℕ} 4000 b'a' in omega arith)

abbrev audit_outbox : Text
audit_outbox = codes "audit.outbox_2"

validate_table_name_decides_example :
    ((validate_table_name audit_outbox ≡ nil) × IsTableName audit_outbox)
    ⊎ ((validate_table_name audit_outbox ≡ sentinel invalid_table_name)
        × ¬ IsTableName audit_outbox)
validate_table_name_decides_example = validate_table_name_decides audit_outbox
