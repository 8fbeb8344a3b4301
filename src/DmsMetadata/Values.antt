-- ===== src/DmsMetadata/Values.antt =====
-- apps/dms_metadata/validators.py and metadata_types.py: values, and the tests on them. The parsers of dates, decimals,
-- addresses and regular expressions are arguments. Of a ValidationError only the label is kept.
use Prim.Native.String.{compare}
use Prim.Native.Nat.{Ordering}
use text.Mathlib.Text.{starts_with}
use drf_enterprise_informati.Prelude.{
  ℕ, zero, suc, String, Bool, true, false, ◌&&◌, not, Option, none, some, ◌==◌, ltb, is_set,
  or_default, nat_eq, if◌then◌else◌, Result, ok, err, raise_if,
}
use drf_enterprise_informati.Core.PyText.{ℤ, pos, negsuc}

pub data MetadataType : Type 0 where
  string_type text_type integer_type decimal_type boolean_type date_type datetime_type time_type
        uuid_type email_type url_type json_type enum_type :
      MetadataType

-- A JSON value. A float is the text that `str` gives of it; the code reads no field of an object.
mutual
  pub data Value : Type 0 where
    null : Value
    boolean : Bool → Value
    integer : ℤ → Value
    float : String → Value
    str : String → Value
    array : Items → Value
    object : Value

  pub data Items : Type 0 where
    nil : Items
    cons : Value → Items → Items

-- `decimal` is none for an InvalidOperation, `less` for one too, which a NaN raises; `matches` is
-- none for a re.error, `exponent` for the exponent of a NaN or an infinity, which is no number.
pub record Library : Type 1 where
  pub Decimal : Type 0
  pub str_int : ℤ → String
  pub decimal : String → Option Decimal
  pub less : Decimal → Decimal → Option Bool
  pub exponent : Decimal → Option ℤ
  pub is_date : String → Bool
  pub is_datetime : String → Bool
  pub is_time : String → Bool
  pub is_uuid : String → Bool
  pub is_email : String → Bool
  pub is_url : String → Bool
  pub matches : String → String → Option Bool

-- A ValidationError, or any other exception.
pub data MetadataError : Type 0 where
  invalid : String → MetadataError
  crash : MetadataError

abbrev pub Checked : Type 0
Checked = Result MetadataError (Unit {0})

-- `if not isinstance(value, str)`, then a test of the text
abbrev pub text_that : (String → Bool) → Value → String → Checked
text_that test (str s) label = raise_if (not (test s)) (invalid label)
text_that test _ label = err (invalid label)

abbrev pub any_text : String → Bool
any_text s = true

abbrev pub ℤ_ltb : ℤ → ℤ → Bool
ℤ_ltb (pos a) (pos b) = ltb a b
ℤ_ltb (pos a) (negsuc b) = false
ℤ_ltb (negsuc a) (pos b) = true
ℤ_ltb (negsuc a) (negsuc b) = ltb b a

abbrev pub negated : ℤ → ℤ
negated (pos zero) = pos zero
negated (pos (suc n)) = negsuc n
negated (negsuc n) = pos (suc n)

-- An `int` of a rule; True and False are ints, too.
abbrev pub int_of : Value → Option ℤ
int_of (integer z) = some z
int_of (boolean b) = some (if b then pos 1 else pos 0)
int_of _ = none

abbrev pub text_below : String → String → Bool
text_below a b = elim (compare a b) [ Ordering.lt ↦ true | _ ↦ false ]

-- `value in choices`; a choice that is no text equals no text
abbrev pub item_in : String → Items → Bool
item_in s nil = false
item_in s (cons (str t) rest) = let later = item_in s rest in if t == s then true else later
item_in s (cons _ rest) = item_in s rest

-- `all(isinstance(c, str) for c in choices)`; `", ".join` of anything else is a TypeError
abbrev pub all_texts : Items → Bool
all_texts nil = true
all_texts (cons (str t) rest) = all_texts rest
all_texts (cons _ rest) = false

-- A rule that is there is applied.
abbrev pub with_rule : Option Value → (Value → Checked) → Checked
with_rule none check = ok tt
with_rule (some rule) check = check rule

-- A comparison that may raise.
abbrev pub unless : Option Bool → String → Checked
unless none label = err crash
unless (some broken) label = raise_if broken (invalid label)

-- `len(value)` against a length of the rules
abbrev pub length_below : ℕ → Option ℤ → Option Bool
length_below n none = none
length_below n (some z) = some (ℤ_ltb (pos n) z)

abbrev pub length_above : ℕ → Option ℤ → Option Bool
length_above n none = none
length_above n (some z) = some (ℤ_ltb z (pos n))

abbrev pub is_match : Option Bool → Option Bool
is_match none = none
is_match (some found) = some (not found)

abbrev pub starts_before : String → Value → Option Bool
starts_before s (str bound) = some (text_below s bound)
starts_before s _ = none

abbrev pub starts_after : String → Value → Option Bool
starts_after s (str bound) = some (text_below bound s)
starts_after s _ = none

-- The refusal names the choices, which must be texts.
abbrev pub in_items : Bool → Items → String → Checked
in_items true items label = ok tt
in_items false items label = if all_texts items then err (invalid label) else err crash

abbrev pub choices_of : Option Value → Option Items
choices_of none = some nil
choices_of (some (array items)) = some items
choices_of (some _) = none

abbrev pub in_choices : String → Option Items → String → Checked
in_choices s none label = err crash
in_choices s (some items) label = in_items (item_in s items) items label

-- `value.split("://")[0] if "://" in value`
unfoldable pub before_colon : String → Option String
before_colon String.[] = none
before_colon (String.◌∷◌ c s) =
    let rest = before_colon s in
    if starts_with (String.◌∷◌ c s) "://" then some String.[] else prepended rest
  where
    prepended : Option String → Option String
    prepended none = none
    prepended (some scheme) = some (String.◌∷◌ c scheme)

-- Python's truth of a value; a float's text is "0.0" or "-0.0" when it is false.
abbrev pub is_true : Value → Bool
is_true null = false
is_true (boolean b) = b
is_true (integer (pos n)) = not (nat_eq n 0)
is_true (integer (negsuc n)) = true
is_true (float t) = not (t == "0.0") && not (t == "-0.0")
is_true (str t) = is_set t
is_true (array nil) = false
is_true (array (cons _ _)) = true
is_true object = true

abbrev pub in_schemes : String → Value → String → Checked
in_schemes s (array items) label =
    let scheme = or_default (before_colon s) "" in in_items (item_in scheme items) items label
in_schemes s _ label = err crash
