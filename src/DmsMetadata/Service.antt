-- ===== src/DmsMetadata/Service.antt =====
-- apps/dms_metadata/services.py: the validation of a document's metadata against all definitions of
-- its type.
use drf_enterprise_informati.Prelude.{
  String, ◌≡◌, ◌⊎◌, Bool, true, false, not, Option, none, some, List, [], ◌∷◌, ◌==◌, is_empty,
  any_of, if◌then◌else◌, Dict, get, ok, ◌>>◌, raise_if,
}
use drf_enterprise_informati.DmsMetadata.Values.{
  MetadataType, Value, null, Library, invalid, Checked,
}
use drf_enterprise_informati.DmsMetadata.Types.{HasType}
use drf_enterprise_informati.DmsMetadata.Rules.{MeetsRules}
use drf_enterprise_informati.DmsMetadata.Validators.{validate_type, maybe_rules, validate_rules}

pub record MetadataDefinition : Type 0 where
  pub code : String
  pub data_type : MetadataType
  pub required : Bool
  pub validation_rules : Option (Dict Value)

-- `set(metadata.keys()) - defined_codes`
abbrev pub undefined : List MetadataDefinition → Dict Value → List String
undefined definitions [] = []
undefined definitions ((key, value) ∷ rest) =
    let others = undefined definitions rest in
    if any_of (λ d. d.code == key) definitions then others else key ∷ others

-- `_validate_no_extra_fields`
abbrev pub validate_no_extra_fields : Dict Value → List MetadataDefinition → Checked
validate_no_extra_fields metadata definitions =
    raise_if (not (is_empty (undefined definitions metadata))) (invalid "metadata")

module _ (lib : Library) where
  abbrev pub validate_found : MetadataDefinition → Option Value → Checked
  validate_found definition none = raise_if definition.required (invalid definition.code)
  validate_found definition (some value) =
      validate_type lib definition.data_type value definition.code
      >> maybe_rules lib definition.data_type definition.validation_rules value definition.code

  -- `_validate_definition`
  unfoldable pub validate_definition : MetadataDefinition → Dict Value → Checked
  unfolding validate_type validate_rules
  validate_definition definition metadata = validate_found definition (get definition.code metadata)

  unfoldable pub validate_each : List MetadataDefinition → Dict Value → Checked
  unfolding validate_definition
  validate_each [] metadata = ok tt
  validate_each (d ∷ ds) metadata = validate_definition d metadata >> validate_each ds metadata

  -- `MetadataValidationService.validate`
  unfoldable pub validate : List MetadataDefinition → Dict Value → Checked
  unfolding validate_each
  validate definitions metadata =
      validate_each definitions metadata >> validate_no_extra_fields metadata definitions

-- The rules that there are hold.
abbrev pub RulesMet : Library → MetadataType → Option (Dict Value) → Value → Type 0
RulesMet lib kind none value = Unit
RulesMet lib kind (some []) value = Unit
RulesMet lib kind (some (rule ∷ rules)) value = MeetsRules lib kind (rule ∷ rules) value

-- None is accepted for every type.
abbrev pub ValueMet : Library → MetadataDefinition → Value → Type 0
ValueMet lib d value =
    (value ≡ null)
    ⊎ (HasType lib d.data_type value × RulesMet lib d.data_type d.validation_rules value)

-- The independent description of a field: a missing one is optional, a present one has the type and
-- meets the rules that there are.
abbrev pub IsMet : Library → Dict Value → MetadataDefinition → Type 0
IsMet lib metadata d =
    (get d.code metadata ≡ none → d.required ≡ false)
    × ((value : Value) → get d.code metadata ≡ some value → ValueMet lib d value)

abbrev pub IsDefined : List MetadataDefinition → String × Value → Type 0
IsDefined definitions (key, value) = any_of (λ d. d.code == key) definitions ≡ true

module _ (lib : Library) where
  abbrev Passes : MetadataDefinition → Value → Type 0
  Passes d value =
      (validate_type lib d.data_type value d.code ≡ ok tt)
      × (maybe_rules lib d.data_type d.validation_rules value d.code ≡ ok tt)
