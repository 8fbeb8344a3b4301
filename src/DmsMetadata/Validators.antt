-- ===== src/DmsMetadata/Validators.antt =====
-- apps/dms_metadata/validators.py: the type and the rules of a value. The parsers of dates, decimals,
-- addresses and regular expressions are arguments. Of a ValidationError only the label is kept.
use drf_enterprise_informati.Prelude.{
  String, Bool, true, false, not, Option, none, some, [], ◌∷◌, length, is_some, if◌then◌else◌, Dict,
  get, ok, err, ◌>>◌, raise_if,
}
use drf_enterprise_informati.Core.PyText.{ℤ, codes}
use drf_enterprise_informati.DmsMetadata.Values.{
  boolean_type, Checked, date_type, datetime_type, decimal_type, email_type, enum_type,
  integer_type, json_type, Library, MetadataType, string_type, text_type, time_type, url_type,
  uuid_type, Value, any_text, before_colon, boolean, choices_of, crash, float, in_choices,
  in_schemes, int_of, integer, invalid, is_match, is_true, length_above, length_below, negated,
  null, object, starts_after, starts_before, str, text_that, unless, with_rule, ℤ_ltb,
}

module _ (lib : Library) where
  open lib use {Decimal}

  -- `Decimal(str(value))`
  abbrev pub decimal_of : Value → Option Decimal
  decimal_of (integer z) = lib.decimal (lib.str_int z)
  decimal_of (float t) = lib.decimal t
  decimal_of (str t) = lib.decimal t
  decimal_of (boolean b) = lib.decimal (if b then "True" else "False")
  decimal_of _ = none

  abbrev pub is_decimal : Value → Bool
  is_decimal (integer z) = is_some (decimal_of (integer z))
  is_decimal (float t) = is_some (decimal_of (float t))
  is_decimal (str t) = is_some (decimal_of (str t))
  is_decimal _ = false

  -- The branches of `validate_type` for a value that is not None.
  unfoldable pub check_type : MetadataType → Value → String → Checked
  check_type string_type value label = text_that any_text value label
  check_type text_type value label = text_that any_text value label
  check_type enum_type value label = text_that any_text value label
  check_type integer_type (integer z) label = ok tt
  check_type integer_type _ label = err (invalid label)
  check_type decimal_type value label = raise_if (not (is_decimal value)) (invalid label)
  check_type boolean_type (boolean b) label = ok tt
  check_type boolean_type _ label = err (invalid label)
  check_type date_type value label = text_that lib.is_date value label
  check_type datetime_type value label = text_that lib.is_datetime value label
  check_type time_type value label = text_that lib.is_time value label
  check_type uuid_type value label = text_that lib.is_uuid value label
  check_type email_type value label = text_that lib.is_email value label
  check_type url_type value label = text_that lib.is_url value label
  check_type json_type object label = ok tt
  check_type json_type _ label = err (invalid label)

  -- `validate_type`
  unfoldable pub validate_type : MetadataType → Value → String → Checked
  unfolding check_type
  validate_type kind null label = ok tt
  validate_type kind value label = check_type kind value label

  abbrev pub both_decimals :
      (Decimal → Decimal → Option Bool) → Option Decimal → Option Decimal → Option Bool
  both_decimals test (some a) (some b) = test a b
  both_decimals test _ _ = none

  abbrev pub too_precise : Option ℤ → Option ℤ → Option Bool
  too_precise (some exponent) (some precision) = some (ℤ_ltb exponent (negated precision))
  too_precise _ _ = none

  abbrev pub exponent_of : Option Decimal → Option ℤ
  exponent_of none = none
  exponent_of (some d) = lib.exponent d

  abbrev pub pattern_broken : String → Value → Option Bool
  pattern_broken s (str pattern) = is_match (lib.matches pattern s)
  pattern_broken s _ = none

  unfoldable pub length_rules : Dict Value → String → String → Checked
  length_rules rules s label =
      with_rule (get "min_length" rules)
        (λ rule. unless (length_below (length (codes s)) (int_of rule)) label)
      >> (with_rule (get "max_length" rules)
            (λ rule. unless (length_above (length (codes s)) (int_of rule)) label)
          >> with_rule (get "pattern" rules) (λ rule. unless (pattern_broken s rule) label))

  unfoldable pub number_rules : Dict Value → Bool → Value → String → Checked
  number_rules rules precise value label =
      let numeric = decimal_of value in
      raise_if (not (is_some numeric)) crash
      >> (with_rule (get "min" rules)
            (λ rule. unless (both_decimals lib.less numeric (decimal_of rule)) label)
          >> (with_rule (get "max" rules)
                (λ rule. unless (both_decimals lib.less (decimal_of rule) numeric) label)
              >> (if precise
                  then with_rule (get "precision" rules)
                      (λ rule. unless (too_precise (exponent_of numeric) (int_of rule)) label)
                  else ok tt)))

  unfoldable pub date_rules : Dict Value → String → String → Checked
  date_rules rules s label =
      with_rule (get "min" rules) (λ rule. unless (starts_before s rule) label)
      >> with_rule (get "max" rules) (λ rule. unless (starts_after s rule) label)

  -- `validate_rules`; the other types have no rules. A value that is no text where the type asks for
  -- one, which `validate_type` refuses, counts as a crash.
  unfoldable pub validate_rules : MetadataType → Dict Value → Value → String → Checked
  unfolding length_rules number_rules date_rules before_colon
  validate_rules kind rules null label = ok tt
  validate_rules string_type rules (str s) label = length_rules rules s label
  validate_rules string_type rules _ label = err crash
  validate_rules text_type rules (str s) label = length_rules rules s label
  validate_rules text_type rules _ label = err crash
  validate_rules integer_type rules value label = number_rules rules false value label
  validate_rules decimal_type rules value label = number_rules rules true value label
  validate_rules date_type rules (str s) label = date_rules rules s label
  validate_rules date_type rules _ label = err crash
  validate_rules datetime_type rules (str s) label = date_rules rules s label
  validate_rules datetime_type rules _ label = err crash
  validate_rules enum_type rules (str s) label =
      in_choices s (choices_of (get "choices" rules)) label
  validate_rules enum_type rules _ label = err crash
  validate_rules url_type rules (str s) label =
      with_rule (get "allowed_schemes" rules)
        (λ rule. if is_true rule then in_schemes s rule label else ok tt)
  validate_rules url_type rules _ label = err crash
  validate_rules _ rules value label = ok tt

  -- `if validation_rules:`, then the rules
  abbrev pub maybe_rules : MetadataType → Option (Dict Value) → Value → String → Checked
  maybe_rules kind none value label = ok tt
  maybe_rules kind (some []) value label = ok tt
  maybe_rules kind (some (rule ∷ rules)) value label =
      validate_rules kind (rule ∷ rules) value label

  -- `validate_default_value`
  unfoldable pub validate_default_value : MetadataType → Value → Option (Dict Value) → Checked
  unfolding validate_type validate_rules
  validate_default_value kind null rules = ok tt
  validate_default_value kind value rules =
      validate_type kind value "Default value" >> maybe_rules kind rules value "Default value"
