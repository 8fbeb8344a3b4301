-- ===== src/DmsMetadata/Types.antt =====
-- What it means that a value has a metadata type, and that `validate_type` decides it.
use drf_enterprise_informati.Prelude.{
  String, ◌≡◌, ◌≢◌, ◌↔◌, refl, sym, Bool, true, not, ◌∙◌, Option, none, some, arith, is_some,
  raise_if_inv, ok,
}
use drf_enterprise_informati.Core.PyText.{ℤ}
use drf_enterprise_informati.DmsMetadata.Values.{
  MetadataType, string_type, text_type, integer_type, decimal_type, boolean_type, date_type,
  datetime_type, time_type, uuid_type, email_type, url_type, json_type, enum_type, Value, null,
  boolean, integer, float, str, array, object, Library, invalid, text_that, any_text,
}
use drf_enterprise_informati.DmsMetadata.Validators.{is_decimal, check_type, validate_type}

-- `str` of a number, or the text itself.
pub data IsNumeral (lib : Library) (value : Value) (text : String) : Type 0 where
  whole : (z : ℤ) → value ≡ integer z → text ≡ lib.str_int z → IsNumeral lib value text
  floating : value ≡ float text → IsNumeral lib value text
  written : value ≡ str text → IsNumeral lib value text

-- A text of which a test holds.
abbrev pub IsTextThat : (String → Bool) → Value → Type 0
IsTextThat test value = (s : String) × (value ≡ str s) × (test s ≡ true)

-- The one JSON representation that each type has.
abbrev pub HasType : Library → MetadataType → Value → Type 0
HasType lib string_type value = (s : String) × (value ≡ str s)
HasType lib text_type value = (s : String) × (value ≡ str s)
HasType lib enum_type value = (s : String) × (value ≡ str s)
HasType lib integer_type value = (z : ℤ) × (value ≡ integer z)
HasType lib decimal_type value =
    (text : String) × IsNumeral lib value text × (lib.decimal text ≢ none)
HasType lib boolean_type value = (b : Bool) × (value ≡ boolean b)
HasType lib date_type value = IsTextThat lib.is_date value
HasType lib datetime_type value = IsTextThat lib.is_datetime value
HasType lib time_type value = IsTextThat lib.is_time value
HasType lib uuid_type value = IsTextThat lib.is_uuid value
HasType lib email_type value = IsTextThat lib.is_email value
HasType lib url_type value = IsTextThat lib.is_url value
HasType lib json_type value = value ≡ object

text_that-IsTextThat :
    (test : String → Bool) (value : Value) (label : String)
    → text_that test value label ≡ ok tt
    → IsTextThat test value
text_that-IsTextThat test (str s) label h =
    (s, refl, ground (arith, raise_if_inv (not (test s)) (invalid label) h))
text_that-IsTextThat test null label h = cc
text_that-IsTextThat test (boolean b) label h = cc
text_that-IsTextThat test (integer z) label h = cc
text_that-IsTextThat test (float t) label h = cc
text_that-IsTextThat test (array items) label h = cc
text_that-IsTextThat test object label h = cc

IsTextThat-text_that :
    (test : String → Bool) (value : Value) (label : String)
    → IsTextThat test value
    → text_that test value label ≡ ok tt
IsTextThat-text_that test value label (s, e, t) = rw (e, t) refl

any_text-str :
    (value : Value) (label : String)
    → text_that any_text value label ≡ ok tt
    → (s : String) × (value ≡ str s)
any_text-str value label h = let (s, e, _) = text_that-IsTextThat any_text value label h in (s, e)

decides : {A : Type 0} (o : Option A) → is_some o ≡ true → o ≢ none
decides none h e = cc
decides (some a) h e = cc

is_some_of : {A : Type 0} (o : Option A) → o ≢ none → is_some o ≡ true
is_some_of none h = absurd (h refl)
is_some_of (some a) h = refl

module _ (lib : Library) where
  decimal-HasType : (value : Value) → is_decimal lib value ≡ true → HasType lib decimal_type value
  decimal-HasType (integer z) h = (lib.str_int z, whole z refl refl, decides _ h)
  decimal-HasType (float t) h = (t, floating refl, decides _ h)
  decimal-HasType (str t) h = (t, written refl, decides _ h)
  decimal-HasType null h = absurd cc
  decimal-HasType (boolean b) h = absurd cc
  decimal-HasType (array items) h = absurd cc
  decimal-HasType object h = absurd cc

  HasType-decimal : (value : Value) → HasType lib decimal_type value → is_decimal lib value ≡ true
  HasType-decimal value (text, whole z e t, h) = rw (e) (is_some_of _ (rw (t) at h))
  HasType-decimal value (text, floating e, h) = rw (e) (is_some_of _ h)
  HasType-decimal value (text, written e, h) = rw (e) (is_some_of _ h)

  check_type-HasType :
      (kind : MetadataType) (value : Value) (label : String)
      → check_type lib kind value label ≡ ok tt
      → HasType lib kind value
  unfolding check_type
  check_type-HasType string_type value label h = any_text-str value label h
  check_type-HasType text_type value label h = any_text-str value label h
  check_type-HasType enum_type value label h = any_text-str value label h
  check_type-HasType integer_type (integer z) label h = (z, refl)
  check_type-HasType integer_type null label h = absurd cc
  check_type-HasType integer_type (boolean b) label h = absurd cc
  check_type-HasType integer_type (float t) label h = absurd cc
  check_type-HasType integer_type (str s) label h = absurd cc
  check_type-HasType integer_type (array items) label h = absurd cc
  check_type-HasType integer_type object label h = absurd cc
  check_type-HasType decimal_type value label h =
      decimal-HasType value
        (ground (arith, raise_if_inv (not (is_decimal lib value)) (invalid label) h))
  check_type-HasType boolean_type (boolean b) label h = (b, refl)
  check_type-HasType boolean_type null label h = absurd cc
  check_type-HasType boolean_type (integer z) label h = absurd cc
  check_type-HasType boolean_type (float t) label h = absurd cc
  check_type-HasType boolean_type (str s) label h = absurd cc
  check_type-HasType boolean_type (array items) label h = absurd cc
  check_type-HasType boolean_type object label h = absurd cc
  check_type-HasType date_type value label h = text_that-IsTextThat lib.is_date value label h
  check_type-HasType datetime_type value label h =
      text_that-IsTextThat lib.is_datetime value label h
  check_type-HasType time_type value label h = text_that-IsTextThat lib.is_time value label h
  check_type-HasType uuid_type value label h = text_that-IsTextThat lib.is_uuid value label h
  check_type-HasType email_type value label h = text_that-IsTextThat lib.is_email value label h
  check_type-HasType url_type value label h = text_that-IsTextThat lib.is_url value label h
  check_type-HasType json_type object label h = refl
  check_type-HasType json_type null label h = absurd cc
  check_type-HasType json_type (boolean b) label h = absurd cc
  check_type-HasType json_type (integer z) label h = absurd cc
  check_type-HasType json_type (float t) label h = absurd cc
  check_type-HasType json_type (str s) label h = absurd cc
  check_type-HasType json_type (array items) label h = absurd cc

  HasType-check_type :
      (kind : MetadataType) (value : Value) (label : String)
      → HasType lib kind value
      → check_type lib kind value label ≡ ok tt
  unfolding check_type
  HasType-check_type string_type value label (s, e) = rw e refl
  HasType-check_type text_type value label (s, e) = rw e refl
  HasType-check_type enum_type value label (s, e) = rw e refl
  HasType-check_type integer_type value label (z, e) = rw e refl
  HasType-check_type decimal_type value label h = rw (HasType-decimal value h) refl
  HasType-check_type boolean_type value label (b, e) = rw e refl
  HasType-check_type date_type value label h = IsTextThat-text_that lib.is_date value label h
  HasType-check_type datetime_type value label h =
      IsTextThat-text_that lib.is_datetime value label h
  HasType-check_type time_type value label h = IsTextThat-text_that lib.is_time value label h
  HasType-check_type uuid_type value label h = IsTextThat-text_that lib.is_uuid value label h
  HasType-check_type email_type value label h = IsTextThat-text_that lib.is_email value label h
  HasType-check_type url_type value label h = IsTextThat-text_that lib.is_url value label h
  HasType-check_type json_type value label e = rw e refl

  present_type :
      (kind : MetadataType) (value : Value) (label : String)
      → value ≢ null
      → validate_type lib kind value label ≡ check_type lib kind value label
  unfolding validate_type
  present_type kind null label h = absurd (h refl)
  present_type kind (boolean b) label h = refl
  present_type kind (integer z) label h = refl
  present_type kind (float t) label h = refl
  present_type kind (str s) label h = refl
  present_type kind (array items) label h = refl
  present_type kind object label h = refl

  -- `validate_type` accepts a value other than None exactly if it has the type.
  pub validate_type_iff :
      (kind : MetadataType) (value : Value) (label : String)
      → value ≢ null
      → (validate_type lib kind value label ≡ ok tt) ↔ HasType lib kind value
  validate_type_iff kind value label h = (
    λ t. check_type-HasType kind value label (sym (present_type kind value label h) ∙ t),
    λ t. present_type kind value label h ∙ HasType-check_type kind value label t,
  )
