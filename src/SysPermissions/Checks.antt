-- ===== src/SysPermissions/Checks.antt =====
-- apps/sys_permissions/catalog.py: the checks of the catalogs. The package `jsonschema` is an
-- argument.
pub mod Uniqueness
pub mod Totality
pub mod Viewers
use Prim.Native.String.{◌++◌}
use drf_enterprise_informati.Prelude.{
  ℕ, String, ◌≡◌, Bool, true, false, ◌&&◌, not, Option, none, some, List, [], ◌∷◌, nat_eq, ◌==◌,
  if◌then◌else◌, is_empty, or_default, Dict, get, has_key, put, Result, ok, err, ◌>>=◌,
}
use drf_enterprise_informati.SysPermissions.Catalog.{Action, Explicit, Resource, Catalog}
use drf_enterprise_informati.SysPermissions.Registry.{
  joined, CatalogFile, absent, malformed, parsed, AppConfig, build_effective_catalogs,
  resource_permissions, permissions_of, is_write, grants,
}

abbrev pub viewer_errors : String → Dict Action → List String
viewer_errors app_label [] = []
viewer_errors app_label ((codename, action) ∷ rest) =
    let others = viewer_errors app_label rest in
    if is_write action && grants "viewer" action
    then ("[" ++ app_label ++ "] Viewer role cannot have write permission: " ++ codename) ∷ others
    else others

-- `validate_business_rules`
unfoldable pub validate_business_rules : Catalog → String → List String
validate_business_rules catalog app_label =
    viewer_errors app_label (resource_permissions app_label catalog.resources)

-- The variables of `validate_uniqueness`.
pub record Seen : Type 0 where
  pub seen : Dict String
  pub errors : List String

abbrev pub duplicate_message : String → String → String → String
duplicate_message app_label codename first =
    "Duplicate codename '" ++ codename ++ "' in [" ++ app_label ++ "] (already defined in ["
    ++ first ++ "])"

abbrev pub duplicate : String → String → Option String → Seen → Seen
duplicate app_label codename none s = record s { seen = put codename app_label s.seen }
duplicate app_label codename (some first) s = record s {
  errors = joined s.errors (duplicate_message app_label codename first ∷ []);
}

-- One round: a codename that was seen is an error, else it is noted.
unfoldable pub note_one : String → String → Seen → Seen
note_one app_label codename s = duplicate app_label codename (get codename s.seen) s

unfoldable pub note_all : String → Dict Action → Seen → Seen
unfolding note_one
note_all app_label [] s = s
note_all app_label ((codename, action) ∷ rest) s =
    note_all app_label rest (note_one app_label codename s)

unfoldable pub note_catalogs : List (String × Catalog) → Seen → Seen
unfolding note_all permissions_of
note_catalogs [] s = s
note_catalogs ((app_label, catalog) ∷ rest) s =
    note_catalogs rest (note_all app_label (permissions_of app_label catalog) s)

-- `validate_uniqueness`
unfoldable pub validate_uniqueness : List (String × Catalog) → List String
unfolding note_catalogs
validate_uniqueness catalogs = (note_catalogs catalogs (record { seen = []; errors = [] })).errors

-- Draft7Validator(schema).iter_errors: the path and the message of each error.
abbrev pub SchemaCheck : Type 0
SchemaCheck = Explicit → List (String × String)

unfoldable pub schema_messages : String → List (String × String) → List String
schema_messages app_label [] = []
schema_messages app_label ((path, message) ∷ rest) =
    ("[" ++ app_label ++ "] Schema error at " ++ path ++ ": " ++ message)
    ∷ schema_messages app_label rest

module _ (iter_errors : SchemaCheck) where
  -- The errors of one file: `validate_schema`, or the file is no JSON.
  unfoldable pub file_errors : String → CatalogFile → List String
  unfolding schema_messages
  file_errors app_label absent = []
  file_errors app_label (malformed message) =
      ("[" ++ app_label ++ "] Invalid JSON: " ++ message) ∷ []
  file_errors app_label (parsed explicit) = schema_messages app_label (iter_errors explicit)

  unfoldable pub files_errors : List AppConfig → List String
  unfolding file_errors
  files_errors [] = []
  files_errors (app ∷ apps) = joined (file_errors app.label app.file) (files_errors apps)

unfoldable pub rules_errors : List (String × Catalog) → List String
unfolding validate_business_rules
rules_errors [] = []
rules_errors ((app_label, catalog) ∷ rest) =
    joined (validate_business_rules catalog app_label) (rules_errors rest)

unfoldable pub validate_all : SchemaCheck → List AppConfig → Result String (List String)
unfolding file_errors files_errors build_effective_catalogs rules_errors validate_uniqueness
validate_all iter_errors apps =
    let first = files_errors iter_errors apps in
    if not (is_empty first)
    then ok first
    else build_effective_catalogs apps >>= λ effective.
        ok (joined (rules_errors effective) (validate_uniqueness effective))
