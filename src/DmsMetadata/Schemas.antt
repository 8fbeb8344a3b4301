-- ===== src/DmsMetadata/Schemas.antt =====
-- apps/dms_metadata/validators.py: the check of stored rules, and what it is worth when they are
-- applied. The rules are an object; a value of another kind is refused before.
use drf_enterprise_informati.Prelude.{
  String, Bool, true, false, not, Option, none, some, is_some, Dict, get, ok, err, ◌>>◌, raise_if,
}
use drf_enterprise_informati.Core.PyText.{ℤ, pos, negsuc}
use drf_enterprise_informati.DmsMetadata.Values.{
  MetadataType, string_type, text_type, integer_type, decimal_type, date_type, datetime_type,
  url_type, enum_type, Value, float, str, array, cons, invalid, Checked, all_texts, int_of,
}

-- `if key in rules and not …: raise`
abbrev pub rule_is : (Value → Bool) → Option Value → Checked
rule_is test none = ok tt
rule_is test (some rule) = raise_if (not (test rule)) (invalid "rules")

abbrev pub is_number : Value → Bool
is_number (float t) = true
is_number rule = is_some (int_of rule)

abbrev pub at_least_zero : Option ℤ → Bool
at_least_zero none = false
at_least_zero (some (pos n)) = true
at_least_zero (some (negsuc n)) = false

abbrev pub is_text : Value → Bool
is_text (str s) = true
is_text _ = false

abbrev pub is_text_list : Value → Bool
is_text_list (array items) = all_texts items
is_text_list _ = false

abbrev pub is_nonempty_text_list : Value → Bool
is_nonempty_text_list (array (cons item items)) = all_texts (cons item items)
is_nonempty_text_list _ = false

abbrev pub present : Option Value → Checked
present none = err (invalid "rules")
present (some rule) = ok tt

module _ (is_regex : String → Bool) where
  abbrev pub is_pattern : Value → Bool
  is_pattern (str s) = is_regex s
  is_pattern _ = false

  abbrev pub length_schema : Dict Value → Checked
  length_schema rules =
      rule_is (λ r. is_some (int_of r)) (get "min_length" rules)
      >> (rule_is (λ r. is_some (int_of r)) (get "max_length" rules)
          >> rule_is is_pattern (get "pattern" rules))

  abbrev pub number_schema : Dict Value → Checked
  number_schema rules = rule_is is_number (get "min" rules) >> rule_is is_number (get "max" rules)

  abbrev pub date_schema : Dict Value → Checked
  date_schema rules = rule_is is_text (get "min" rules) >> rule_is is_text (get "max" rules)

  -- `validate_validation_rules`
  unfoldable pub validate_validation_rules : MetadataType → Dict Value → Checked
  validate_validation_rules string_type rules = length_schema rules
  validate_validation_rules text_type rules = length_schema rules
  validate_validation_rules integer_type rules = number_schema rules
  validate_validation_rules decimal_type rules =
      number_schema rules >> rule_is (λ r. at_least_zero (int_of r)) (get "precision" rules)
  validate_validation_rules date_type rules = date_schema rules
  validate_validation_rules datetime_type rules = date_schema rules
  validate_validation_rules enum_type rules =
      present (get "choices" rules) >> rule_is is_nonempty_text_list (get "choices" rules)
  validate_validation_rules url_type rules = rule_is is_text_list (get "allowed_schemes" rules)
  validate_validation_rules _ rules = ok tt
