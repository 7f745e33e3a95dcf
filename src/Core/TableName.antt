-- ===== src/Core/TableName.antt =====
-- core/model.go: `ValidateTableName` and the regular expression behind it. The expression is data, and
-- `regexp.MatchString` of the standard library a matcher by derivatives.
use o4x.Prelude.{Bool, true, false, ◌||◌, not, Text, [], ◌∷◌}
use o4x.Core.Errors.{GoError, nil, sentinel, invalid_table_name}
use o4x.Core.Regex.{
  Regex, one, seq, star, optional, start_class, word_class, dot_class, match_string,
}

-- `[a-zA-Z_][a-zA-Z0-9_]*`
abbrev pub identifier : Regex
identifier = seq (one start_class) (star (one word_class))

-- `^[a-zA-Z_][a-zA-Z0-9_]*(\.[a-zA-Z_][a-zA-Z0-9_]*)?$`
unfoldable pub valid_table_name_pattern : Regex
valid_table_name_pattern = seq identifier (optional (seq (one dot_class) identifier))

abbrev pub is_empty : Text → Bool
is_empty [] = true
is_empty (b ∷ s) = false

abbrev pub error_if : Bool → GoError → GoError
error_if true e = e
error_if false e = nil

unfoldable pub validate_table_name : Text → GoError
validate_table_name name =
    error_if (is_empty name || not (match_string valid_table_name_pattern name))
      (sentinel invalid_table_name)
