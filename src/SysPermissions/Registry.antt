-- ===== src/SysPermissions/Registry.antt =====
-- apps/sys_permissions/catalog.py: the effective catalogs of the apps, the registry of permissions and
-- the default permissions of the roles.
pub mod Roles
use Prim.Native.String.{◌++◌}
use mathlib.Core.List
use text.Mathlib.Text.{starts_with}
use drf_enterprise_informati.Prelude.{
  ℕ, String, ◌≡◌, Bool, true, false, ◌&&◌, not, Option, none, some, List, [], ◌∷◌, nat_eq, ◌==◌,
  if◌then◌else◌, is_empty, or_default, Dict, get, has_key, put, Result, ok, err, ◌>>=◌,
}
use drf_enterprise_informati.SysPermissions.Catalog.{
  Action, Explicit, Resource, Catalog, kept_access, generate_default_catalog, merge_catalog,
}

-- `xs + ys`
abbrev pub joined {ℓ} : {A : Type ℓ} → List A → List A → List A
joined = List.◌++◌

-- The file permissions.json of an app, as `load_catalog` reads it.
pub data CatalogFile : Type 0 where
  absent : CatalogFile
  malformed : String → CatalogFile
  parsed : Explicit → CatalogFile

pub record AppConfig : Type 0 where
  pub name : String
  pub label : String
  pub file : CatalogFile

-- `_is_domain_app`
abbrev pub is_domain_app : AppConfig → Bool
is_domain_app app =
    if not (starts_with app.name "apps.")
    then false
    else if starts_with app.label "sys_"
    then false
    else true

unfoldable pub discover_domain_apps : List AppConfig → List AppConfig
discover_domain_apps [] = []
discover_domain_apps (app ∷ apps) =
    let rest = discover_domain_apps apps in if is_domain_app app then app ∷ rest else rest

-- An effective catalog; the error is the JSONDecodeError.
abbrev pub effective_catalog : Catalog → CatalogFile → Result String Catalog
effective_catalog defaults absent = ok defaults
effective_catalog defaults (malformed message) = err message
effective_catalog defaults (parsed explicit) = ok (merge_catalog defaults explicit)

unfoldable pub build_each : List AppConfig → Result String (List (String × Catalog))
unfolding generate_default_catalog merge_catalog
build_each [] = ok []
build_each (app ∷ apps) =
    effective_catalog (generate_default_catalog app.label) app.file >>= λ merged.
    build_each apps >>= λ rest. ok ((app.label, merged) ∷ rest)

unfoldable pub build_effective_catalogs : List AppConfig → Result String (List (String × Catalog))
unfolding build_each discover_domain_apps
build_effective_catalogs apps = build_each (discover_domain_apps apps)

-- The permissions of a catalog with their codenames, in the order in which the loops meet them.
abbrev pub actions_of : String → String → Dict Action → Dict Action
actions_of app_label resource [] = []
actions_of app_label resource ((name, action) ∷ rest) =
    (app_label ++ "." ++ resource ++ "." ++ name, action) ∷ actions_of app_label resource rest

abbrev pub resource_permissions : String → Dict Resource → Dict Action
resource_permissions app_label [] = []
resource_permissions app_label ((name, resource) ∷ rest) =
    joined (actions_of app_label name resource.actions) (resource_permissions app_label rest)

abbrev pub access_permission : String → Option Action → Dict Action
access_permission app_label none = []
access_permission app_label (some action) = (app_label ++ ".access", action) ∷ []

unfoldable pub permissions_of : String → Catalog → Dict Action
unfolding kept_access
permissions_of app_label catalog =
    joined (access_permission app_label (kept_access catalog.access))
      (resource_permissions app_label catalog.resources)

unfoldable pub all_permissions : List (String × Catalog) → Dict Action
unfolding permissions_of
all_permissions [] = []
all_permissions ((app_label, catalog) ∷ rest) =
    joined (permissions_of app_label catalog) (all_permissions rest)

-- `not action.get("readonly")`
abbrev pub is_write : Action → Bool
is_write action = not (or_default action.readonly false)

-- `action.get("default_roles", {}).get(role, 0) == 1`
abbrev pub grants : String → Action → Bool
grants role action = nat_eq (or_default (get role (or_default action.default_roles [])) 0) 1

-- `get_merged_catalog`, after the effective catalogs are built
unfoldable pub register : Dict Action → Dict Action → Dict Action
register [] merged = merged
register ((codename, action) ∷ rest) merged = register rest (put codename action merged)

unfoldable pub get_merged_catalog : List AppConfig → Result String (Dict Action)
unfolding build_effective_catalogs register all_permissions
get_merged_catalog apps =
    build_effective_catalogs apps >>= λ effective. ok (register (all_permissions effective) [])

abbrev pub default_roles : List String
default_roles = "owner" ∷ "admin" ∷ "member" ∷ "viewer" ∷ []

-- `role_permissions[role][codename] = 1`
abbrev pub set_one : String → String → Dict (Dict ℕ) → Dict (Dict ℕ)
set_one role codename table = put role (put codename 1 (or_default (get role table) [])) table

-- The loop over the roles.
unfoldable pub grant_roles : String → Action → List String → Dict (Dict ℕ) → Dict (Dict ℕ)
grant_roles codename action [] table = table
grant_roles codename action (role ∷ rest) table =
    grant_roles codename action rest
      (if grants role action then set_one role codename table else table)

-- The loop over the registry.
unfoldable pub grant_all : Dict Action → Dict (Dict ℕ) → Dict (Dict ℕ)
unfolding grant_roles
grant_all [] table = table
grant_all ((codename, action) ∷ rest) table =
    grant_all rest (grant_roles codename action default_roles table)

abbrev pub empty_table : List String → Dict (Dict ℕ)
empty_table [] = []
empty_table (role ∷ rest) = (role, []) ∷ empty_table rest

unfoldable pub get_default_role_permissions : List AppConfig → Result String (Dict (Dict ℕ))
unfolding get_merged_catalog grant_all
get_default_role_permissions apps =
    get_merged_catalog apps >>= λ merged. ok (grant_all merged (empty_table default_roles))
