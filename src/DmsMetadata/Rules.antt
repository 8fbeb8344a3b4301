-- ===== src/DmsMetadata/Rules.antt =====
-- What it means that a value meets the rules of its definition, independent of the code.
pub mod Deciding
pub mod Accepting
use mathlib.Core.Path.{subst}
use Prim.Native.Nat.{suc, zero}
use drf_enterprise_informati.Prelude.{
  ℕ, ◌≤◌, String, ◌≡◌, ◌≢◌, ◌↔◌, ◌⊎◌, refl, sym, ◌∙◌, Bool, true, false, not, Option, none, some,
  arith, ◌==◌, eq_iff, eq_refl, is_some, some_injective, or_default, Bool-cases, Option-cases, inl,
  inr, if◌then◌else◌, raise_if, raise_if_inv, ok, err, ◌>>◌, Dict, get, length,
}
use drf_enterprise_informati.Core.PyText.{ℤ, pos, negsuc, codes}
use drf_enterprise_informati.DmsMetadata.Values.{
  MetadataType, string_type, text_type, integer_type, decimal_type, boolean_type, date_type,
  datetime_type, time_type, uuid_type, email_type, url_type, json_type, enum_type, Value, null,
  boolean, integer, float, str, array, object, Items, nil, cons, Library, invalid, crash, Checked,
  with_rule, unless, int_of, length_below, length_above, ℤ_ltb, negated, is_match, text_below,
  starts_before, starts_after, item_in, in_items, in_choices, choices_of, in_schemes, is_true,
  before_colon,
}
use drf_enterprise_informati.DmsMetadata.Validators.{
  decimal_of, both_decimals, too_precise, exponent_of, pattern_broken, length_rules, number_rules,
  date_rules, validate_rules,
}
use drf_enterprise_informati.DmsMetadata.Types.{HasType, IsNumeral, whole, floating, written}

abbrev pub AtMost : ℤ → ℤ → Type 0
AtMost (pos a) (pos b) = a ≤ b
AtMost (pos a) (negsuc b) = ¬ Unit {0}
AtMost (negsuc a) (pos b) = Unit {0}
AtMost (negsuc a) (negsuc b) = b ≤ a

-- A Python int; True and False are 1 and 0.
pub data IsInt (rule : Value) : ℤ → Type 0 where
  number : (z : ℤ) → rule ≡ integer z → IsInt rule z
  yes_one : rule ≡ boolean true → IsInt rule (pos 1)
  no_zero : rule ≡ boolean false → IsInt rule (pos 0)

-- The text of a rule that is a number; a rule may be True or False.
pub data IsBound (lib : Library) (rule : Value) (text : String) : Type 0 where
  numeral : IsNumeral lib rule text → IsBound lib rule text
  true_text : rule ≡ boolean true → text ≡ "True" → IsBound lib rule text
  false_text : rule ≡ boolean false → text ≡ "False" → IsBound lib rule text

-- The text is one of the items.
pub data IsListed (s : String) : Items → Type 0 where
  listed_first : {rest : Items} → IsListed s (cons (str s) rest)
  listed_later : {v : Value} {rest : Items} → IsListed s rest → IsListed s (cons v rest)

-- Every rule that is there holds.
abbrev pub Holds : Dict Value → String → (Value → Type 0) → Type 0
Holds rules name P = (rule : Value) → get name rules ≡ some rule → P rule

module _ (lib : Library) where
  abbrev pub AtLeastLong : String → Value → Type 0
  AtLeastLong s rule = (z : ℤ) × IsInt rule z × AtMost z (pos (length (codes s)))

  abbrev pub AtMostLong : String → Value → Type 0
  AtMostLong s rule = (z : ℤ) × IsInt rule z × AtMost (pos (length (codes s))) z

  abbrev pub Matches : String → Value → Type 0
  Matches s rule = (pattern : String) × (rule ≡ str pattern) × (lib.matches pattern s ≡ some true)

  abbrev pub LengthsMet : Dict Value → String → Type 0
  LengthsMet rules s =
      Holds rules "min_length" (AtLeastLong s)
      × Holds rules "max_length" (AtMostLong s)
      × Holds rules "pattern" (Matches s)

  abbrev pub AboveBound : lib.Decimal → Value → Type 0
  AboveBound d rule =
      (text : String) × IsBound lib rule text
      × (bound : lib.Decimal) × (lib.decimal text ≡ some bound)
      × (lib.less d bound ≡ some false)

  abbrev pub BelowBound : lib.Decimal → Value → Type 0
  BelowBound d rule =
      (text : String) × IsBound lib rule text
      × (bound : lib.Decimal) × (lib.decimal text ≡ some bound)
      × (lib.less bound d ≡ some false)

  -- At most so many decimal places: the exponent is not below the negated precision.
  abbrev pub IsPrecise : lib.Decimal → Value → Type 0
  IsPrecise d rule =
      (exponent places : ℤ) × (lib.exponent d ≡ some exponent)
      × IsInt rule places
      × AtMost (negated places) exponent

  abbrev pub NumbersMet : Dict Value → Value → (lib.Decimal → Type 0) → Type 0
  NumbersMet rules value More =
      (text : String) × IsNumeral lib value text
      × (d : lib.Decimal) × (lib.decimal text ≡ some d)
      × Holds rules "min" (AboveBound d)
      × Holds rules "max" (BelowBound d)
      × More d

  abbrev pub DatesMet : Dict Value → String → Type 0
  DatesMet rules s =
      Holds rules "min"
        (λ rule. (bound : String) × (rule ≡ str bound) × (text_below s bound ≡ false))
      × Holds rules "max"
          (λ rule. (bound : String) × (rule ≡ str bound) × (text_below bound s ≡ false))

  abbrev pub SchemeMet : Dict Value → String → Type 0
  SchemeMet rules s = Holds rules "allowed_schemes" (λ rule.
      (is_true rule ≡ false)
      ⊎ ((items : Items) × (rule ≡ array items) × IsListed (or_default (before_colon s) "") items))

  -- What the rules ask of a value of the type, independent of the code.
  abbrev pub MeetsRules : MetadataType → Dict Value → Value → Type 0
  MeetsRules string_type rules value = (s : String) → value ≡ str s → LengthsMet rules s
  MeetsRules text_type rules value = (s : String) → value ≡ str s → LengthsMet rules s
  MeetsRules integer_type rules value = NumbersMet rules value (λ d. Unit {0})
  MeetsRules decimal_type rules value =
      NumbersMet rules value (λ d. Holds rules "precision" (IsPrecise d))
  MeetsRules date_type rules value = (s : String) → value ≡ str s → DatesMet rules s
  MeetsRules datetime_type rules value = (s : String) → value ≡ str s → DatesMet rules s
  MeetsRules enum_type rules value =
      (s : String)
      → value ≡ str s
      → (items : Items) × (get "choices" rules ≡ some (array items)) × IsListed s items
  MeetsRules url_type rules value = (s : String) → value ≡ str s → SchemeMet rules s
  MeetsRules boolean_type rules value = Unit {0}
  MeetsRules time_type rules value = Unit {0}
  MeetsRules uuid_type rules value = Unit {0}
  MeetsRules email_type rules value = Unit {0}
  MeetsRules json_type rules value = Unit {0}
