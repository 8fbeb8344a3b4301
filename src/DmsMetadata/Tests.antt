-- ===== src/DmsMetadata/Tests.antt =====
-- An invoice with a number, a currency and a note.
use drf_enterprise_informati.Prelude.{
  ℕ, ◌≡◌, refl, true, false, none, some, [], ◌∷◌, ◌==◌, ltb, if◌then◌else◌, is_set, Dict, ok, err,
}
use drf_enterprise_informati.Core.PyText.{pos}
use drf_enterprise_informati.DmsMetadata.Values.{
  string_type, enum_type, Value, str, array, integer, nil, cons, Library, invalid,
}
use drf_enterprise_informati.DmsMetadata.Validators.{validate_rules}
use drf_enterprise_informati.DmsMetadata.Schemas.{validate_validation_rules}
use drf_enterprise_informati.DmsMetadata.Crashes.{crashes, rules_never_crash}
use drf_enterprise_informati.DmsMetadata.Service.{MetadataDefinition, validate}

-- Numbers are the texts "0" and "1", and an expression matches itself.
abbrev lib : Library
lib = record {
  Decimal = ℕ;
  str_int = λ z. "1";
  decimal = λ t. if t == "0" then some 0 else if t == "1" then some 1 else none;
  less = λ a b. some (ltb a b);
  exponent = λ d. some (pos 0);
  is_date = is_set;
  is_datetime = is_set;
  is_time = is_set;
  is_uuid = is_set;
  is_email = is_set;
  is_url = is_set;
  matches = λ p s. some (p == s);
}

abbrev number : MetadataDefinition
number = record {
  code = "number";
  data_type = string_type;
  required = true;
  validation_rules = some (("min_length", integer (pos 3)) ∷ []);
}

abbrev choices : Dict Value
choices = ("choices", array (cons (str "USD") (cons (str "EUR") nil))) ∷ []

abbrev currency : MetadataDefinition
currency = record {
  code = "currency";
  data_type = enum_type;
  required = false;
  validation_rules = some choices;
}

abbrev metadata : Dict Value
metadata = ("number", str "INV") ∷ ("currency", str "EUR") ∷ []

accepted : validate lib (number ∷ currency ∷ []) metadata ≡ ok tt
unfolding validate
accepted = refl

refused :
    (validate lib (number ∷ []) (("number", str "I") ∷ []) ≡ err (invalid "number"))
    × ((validate lib (number ∷ []) [] ≡ err (invalid "number"))
        × (validate lib (number ∷ []) metadata ≡ err (invalid "metadata")))
unfolding validate
refused = (refl, (refl, refl))

-- An ENUM definition without rules accepts any text.
any_choice :
    validate lib (record currency { validation_rules = none } ∷ []) (("currency", str "XXX") ∷ [])
    ≡ ok tt
unfolding validate
any_choice = refl

checked_rules : validate_validation_rules is_set enum_type choices ≡ ok tt
unfolding validate_validation_rules
checked_rules = refl

rules_never_crash_example :
    crashes (validate_rules lib enum_type choices (str "GBP") "currency") ≡ false
rules_never_crash_example =
    rules_never_crash lib is_set enum_type choices "GBP" "currency" (λ p s h. refl) refl
      checked_rules
