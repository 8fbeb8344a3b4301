-- ===== src/DmsIngestion/Checks.antt =====
-- apps/dms_ingestion/validators.py, and the sizes of core/utils/formatting.py in its messages. A
-- natural number is shown by `str`, an argument.
use Prim.Native.String.{◌++◌}
use drf_enterprise_informati.Prelude.{
  ℕ, ◌≤◌, ◌/◌, String, ◌≡◌, refl, true, false, not, ◌&&◌, List, [], ◌∷◌, arith, ltb, if◌then◌else◌,
  Result, ok, ◌>>◌, raise_if, contains, is_empty, ◌↔◌, ◌⊎◌, inl, inr, Bool-cases,
}
use drf_enterprise_informati.Core.PyPath.{lower, ext_of}

-- `settings.APP_DMS_INGESTION`
pub record Config : Type 0 where
  pub max_file_size_bytes : ℕ
  pub allowed_mime_types : List String
  pub allowed_extensions : List String
  pub pipeline_processors : List String

module _ (str : ℕ → String) where
  -- A whole number with one decimal.
  human_size_in : ℕ → List String → String
  human_size_in size [] = str size ++ ".0 PB"
  human_size_in size (unit ∷ units) =
      let larger = human_size_in (size / 1024) units in
      if ltb size 1024 then str size ++ ".0 " ++ unit else larger

  pub format_human_size : ℕ → String
  unfolding human_size_in
  format_human_size size = human_size_in size ("B" ∷ "KB" ∷ "MB" ∷ "GB" ∷ "TB" ∷ [])

  -- An error is the message of the ValidationError.
  unfoldable pub validate_file_size : Config → ℕ → Result String (Unit {0})
  validate_file_size cfg size = raise_if (ltb cfg.max_file_size_bytes size) (
      "File size "
      ++ format_human_size size
      ++ " exceeds the maximum allowed "
      ++ format_human_size cfg.max_file_size_bytes
      ++ ".")

  unfoldable pub validate_mime_type : Config → String → Result String (Unit {0})
  validate_mime_type cfg mime_type =
      raise_if
        (not (is_empty cfg.allowed_mime_types) && not (contains mime_type cfg.allowed_mime_types))
        ("MIME type '" ++ mime_type ++ "' is not allowed.")

  unfoldable pub validate_extension : Config → String → Result String (Unit {0})
  validate_extension cfg filename =
      if is_empty cfg.allowed_extensions
      then ok tt
      else raise_if (not (contains (lower (ext_of filename)) cfg.allowed_extensions))
          ("File extension '" ++ lower (ext_of filename) ++ "' is not allowed.")

  -- The three calls of `run_pipeline`, in their order.
  unfoldable pub validate_all : Config → ℕ → String → String → Result String (Unit {0})
  unfolding validate_file_size validate_mime_type validate_extension
  validate_all cfg size mime_type filename = do
    validate_file_size cfg size
    validate_mime_type cfg mime_type
    validate_extension cfg filename

  -- What the settings allow.
  pub record IsAllowed (cfg : Config) (size : ℕ) (mime_type filename : String) : Type 0 where
    pub small : size ≤ cfg.max_file_size_bytes
    pub mime : (cfg.allowed_mime_types ≡ []) ⊎ (contains mime_type cfg.allowed_mime_types ≡ true)
    pub suffix :
        (cfg.allowed_extensions ≡ [])
        ⊎ (contains (lower (ext_of filename)) cfg.allowed_extensions ≡ true)

  is_empty_nil : (l : List String) → is_empty l ≡ true → l ≡ []
  is_empty_nil [] h = refl
  is_empty_nil (x ∷ xs) h = absurd (ground arith)

  open_or_listed :
      (l : List String) (x : String)
      → (not (is_empty l) && not (contains x l)) ≡ false
      → (l ≡ []) ⊎ (contains x l ≡ true)
  open_or_listed l x h = elim (Bool-cases (is_empty l)) [
    | inl e ↦ inl (is_empty_nil l e)
    | inr e ↦ inr (ground arith)
  ]

  validate_all-IsAllowed :
      (cfg : Config) (size : ℕ) (mime_type filename : String)
      → validate_all cfg size mime_type filename ≡ ok tt
      → IsAllowed cfg size mime_type filename
  unfolding validate_all
  validate_all-IsAllowed cfg size mime_type filename h = record {
    small = ground arith;
    mime = open_or_listed cfg.allowed_mime_types mime_type (ground arith);
    suffix = open_or_listed cfg.allowed_extensions (lower (ext_of filename)) (ground arith);
  }

  validate_all_complete :
      (cfg : Config) (size : ℕ) (mime_type filename : String)
      → IsAllowed cfg size mime_type filename
      → validate_all cfg size mime_type filename ≡ ok tt
  unfolding validate_all
  validate_all_complete cfg size mime_type filename a = elim (a.mime) [
    | inl m ↦ elim (a.suffix) [ inl s ↦ ground (arith, a.small) | inr s ↦ ground (arith, a.small) ]
    | inr m ↦ elim (a.suffix) [ inl s ↦ ground (arith, a.small) | inr s ↦ ground (arith, a.small) ]
  ]

  -- A file passes the validators exactly if its size is at most the configured maximum and its
  -- MIME type and its extension, in small letters, are each listed, where the list is not empty.
  pub validate_all_iff :
      (cfg : Config) (size : ℕ) (mime_type filename : String)
      → (validate_all cfg size mime_type filename ≡ ok tt) ↔ IsAllowed cfg size mime_type filename
  validate_all_iff cfg size mime_type filename = (
    validate_all-IsAllowed cfg size mime_type filename,
    validate_all_complete cfg size mime_type filename,
  )
