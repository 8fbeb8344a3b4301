-- ===== src/DmsMetadata/Crashes.antt =====
-- Rules that passed their check never make the validation of a value crash.
use drf_enterprise_informati.Prelude.{
  String, ◌≡◌, refl, Bool, true, false, not, Option, none, some, arith, is_some, inl, inr,
  if◌then◌else◌, Option-cases, Dict, get, ok, err, ◌>>◌, raise_if_inv, length,
}
use drf_enterprise_informati.Core.PyText.{codes}
use drf_enterprise_informati.DmsMetadata.Values.{
  MetadataType, string_type, text_type, integer_type, decimal_type, boolean_type, date_type,
  datetime_type, time_type, uuid_type, email_type, url_type, json_type, enum_type, Value, null,
  boolean, integer, float, str, array, object, Items, nil, cons, Library, invalid, crash, Checked,
  all_texts, item_in, in_items, in_choices, choices_of, in_schemes, is_true, length_below,
  length_above, starts_before, starts_after, int_of, with_rule, unless,
}
use drf_enterprise_informati.DmsMetadata.Validators.{
  pattern_broken, length_rules, date_rules, validate_rules,
}
use drf_enterprise_informati.DmsMetadata.Schemas.{
  rule_is, is_text, is_text_list, is_nonempty_text_list, is_pattern, present, length_schema,
  date_schema, validate_validation_rules,
}

abbrev pub crashes : Checked → Bool
crashes (ok _) = false
crashes (err (invalid label)) = false
crashes (err crash) = true

seq_safe : (m k : Checked) → crashes m ≡ false → crashes k ≡ false → crashes (m >> k) ≡ false
seq_safe (ok _) k hm hk = hk
seq_safe (err e) k hm hk = hm

seq_ok : (m k : Checked) → (m >> k) ≡ ok tt → (m ≡ ok tt) × (k ≡ ok tt)
seq_ok (err e) k h = cc
seq_ok (ok _) k h = (refl, h)

unless_safe :
    (o : Option Bool) (label : String) → is_some o ≡ true → crashes (unless o label) ≡ false
unless_safe none label h = cc
unless_safe (some true) label h = refl
unless_safe (some false) label h = refl

-- A rule that its check has passed.
rule_safe :
    (test : Value → Bool) (rule : Option Value) (apply : Value → Checked)
    → rule_is test rule ≡ ok tt
    → ((r : Value) → test r ≡ true → crashes (apply r) ≡ false)
    → crashes (with_rule rule apply) ≡ false
rule_safe test none apply h safe = refl
rule_safe test (some r) apply h safe =
    safe r (ground (arith, raise_if_inv (not (test r)) (invalid "rules") h))

below_some :
    (s : String) (label : String) (r : Value)
    → is_some (int_of r) ≡ true
    → crashes (unless (length_below (length (codes s)) (int_of r)) label) ≡ false
below_some s label r h = elim (Option-cases (int_of r)) [
  | inl e ↦ cc (rw (e) at h)
  | inr (z, e) ↦ rw (e) (unless_safe (length_below (length (codes s)) (some z)) label refl)
]

above_some :
    (s : String) (label : String) (r : Value)
    → is_some (int_of r) ≡ true
    → crashes (unless (length_above (length (codes s)) (int_of r)) label) ≡ false
above_some s label r h = elim (Option-cases (int_of r)) [
  | inl e ↦ cc (rw (e) at h)
  | inr (z, e) ↦ rw (e) (unless_safe (length_above (length (codes s)) (some z)) label refl)
]

before_some :
    (s label : String) (r : Value)
    → is_text r ≡ true
    → crashes (unless (starts_before s r) label) ≡ false
before_some s label (str bound) h = unless_safe (starts_before s (str bound)) label refl
before_some s label null h = cc
before_some s label (boolean b) h = cc
before_some s label (integer z) h = cc
before_some s label (float t) h = cc
before_some s label (array items) h = cc
before_some s label object h = cc

after_some :
    (s label : String) (r : Value)
    → is_text r ≡ true
    → crashes (unless (starts_after s r) label) ≡ false
after_some s label (str bound) h = unless_safe (starts_after s (str bound)) label refl
after_some s label null h = cc
after_some s label (boolean b) h = cc
after_some s label (integer z) h = cc
after_some s label (float t) h = cc
after_some s label (array items) h = cc
after_some s label object h = cc

items_safe :
    (found : Bool) (items : Items) (label : String)
    → all_texts items ≡ true
    → crashes (in_items found items label) ≡ false
items_safe true items label h = refl
items_safe false items label h = rw (h) refl

choices_safe :
    (s label : String) (choices : Option Value)
    → present choices ≡ ok tt
    → rule_is is_nonempty_text_list choices ≡ ok tt
    → crashes (in_choices s (choices_of choices) label) ≡ false
choices_safe s label none p h = cc
choices_safe s label (some (array (cons item items))) p h =
    items_safe (item_in s (cons item items)) (cons item items) label
      (ground (arith, raise_if_inv (not (all_texts (cons item items))) (invalid "rules") h))
choices_safe s label (some (array nil)) p h = cc
choices_safe s label (some null) p h = cc
choices_safe s label (some (boolean b)) p h = cc
choices_safe s label (some (integer z)) p h = cc
choices_safe s label (some (float t)) p h = cc
choices_safe s label (some (str t)) p h = cc
choices_safe s label (some object) p h = cc

schemes_safe :
    (s label : String) (r : Value)
    → is_text_list r ≡ true
    → crashes (if is_true r then in_schemes s r label else ok tt) ≡ false
schemes_safe s label (array nil) h = refl
schemes_safe s label (array (cons item items)) h = items_safe _ (cons item items) label h
schemes_safe s label null h = cc
schemes_safe s label (boolean b) h = cc
schemes_safe s label (integer z) h = cc
schemes_safe s label (float t) h = cc
schemes_safe s label (str t) h = cc
schemes_safe s label object h = cc

-- The types whose values are texts with rules.
abbrev pub is_textual : MetadataType → Bool
is_textual string_type = true
is_textual text_type = true
is_textual date_type = true
is_textual datetime_type = true
is_textual enum_type = true
is_textual url_type = true
is_textual _ = false

module _ (lib : Library) (is_regex : String → Bool) where
  -- What is assumed of `re`: an expression that compiles can be matched.
  abbrev pub CompiledMatch : Type 0
  CompiledMatch = (p s : String) → is_regex p ≡ true → is_some (lib.matches p s) ≡ true

  pattern_safe :
      (s label : String) (r : Value)
      → CompiledMatch
      → is_pattern is_regex r ≡ true
      → crashes (unless (pattern_broken lib s r) label) ≡ false
  pattern_safe s label (str p) documented h = elim (Option-cases (lib.matches p s)) [
    | inl e ↦ let m = documented p s h in cc (rw (e) at m)
    | inr (found, e) ↦ rw (e) (unless_safe (some (not found)) label refl)
  ]
  pattern_safe s label null documented h = cc
  pattern_safe s label (boolean b) documented h = cc
  pattern_safe s label (integer z) documented h = cc
  pattern_safe s label (float t) documented h = cc
  pattern_safe s label (array items) documented h = cc
  pattern_safe s label object documented h = cc

  length_safe :
      (rules : Dict Value) (s label : String)
      → CompiledMatch
      → length_schema is_regex rules ≡ ok tt
      → crashes (length_rules lib rules s label) ≡ false
  unfolding length_rules
  length_safe rules s label documented h =
      let (min, h1) = seq_ok (rule_is (λ r. is_some (int_of r)) (get "min_length" rules)) _ h in
      let (max, pattern) =
        seq_ok (rule_is (λ r. is_some (int_of r)) (get "max_length" rules)) _ h1 in
      seq_safe _ _
        (rule_safe (λ r. is_some (int_of r)) (get "min_length" rules) _ min (below_some s label))
        (seq_safe _ _
          (rule_safe (λ r. is_some (int_of r)) (get "max_length" rules) _ max (above_some s label))
          (rule_safe (is_pattern is_regex) (get "pattern" rules) _ pattern
            (λ r p. pattern_safe s label r documented p)))

  date_safe :
      (rules : Dict Value) (s label : String)
      → date_schema is_regex rules ≡ ok tt
      → crashes (date_rules lib rules s label) ≡ false
  unfolding date_rules
  date_safe rules s label h =
      let (min, max) = seq_ok (rule_is is_text (get "min" rules)) _ h in
      seq_safe _ _ (rule_safe is_text (get "min" rules) _ min (before_some s label))
        (rule_safe is_text (get "max" rules) _ max (after_some s label))

  -- For a type whose values are texts with rules, rules that passed their check never make the
  -- validation of a text end in another exception than a ValidationError: choices and schemes are
  -- lists of texts, bounds are texts, lengths are integers, and patterns compile. An expression that
  -- compiles is assumed to be matched without an error.
  pub rules_never_crash :
      (data_type : MetadataType) (rules : Dict Value) (s label : String)
      → CompiledMatch
      → is_textual data_type ≡ true
      → validate_validation_rules is_regex data_type rules ≡ ok tt
      → crashes (validate_rules lib data_type rules (str s) label) ≡ false
  unfolding validate_validation_rules validate_rules
  rules_never_crash string_type rules s label documented t h =
      length_safe rules s label documented h
  rules_never_crash text_type rules s label documented t h = length_safe rules s label documented h
  rules_never_crash date_type rules s label documented t h = date_safe rules s label h
  rules_never_crash datetime_type rules s label documented t h = date_safe rules s label h
  rules_never_crash enum_type rules s label documented t h =
      let (there, listed) = seq_ok (present (get "choices" rules)) _ h in
      choices_safe s label (get "choices" rules) there listed
  rules_never_crash url_type rules s label documented t h =
      rule_safe is_text_list (get "allowed_schemes" rules) _ h (schemes_safe s label)
  rules_never_crash integer_type rules s label documented t h = cc
  rules_never_crash decimal_type rules s label documented t h = cc
  rules_never_crash boolean_type rules s label documented t h = cc
  rules_never_crash time_type rules s label documented t h = cc
  rules_never_crash uuid_type rules s label documented t h = cc
  rules_never_crash email_type rules s label documented t h = cc
  rules_never_crash json_type rules s label documented t h = cc
