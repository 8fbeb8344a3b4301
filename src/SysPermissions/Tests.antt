-- ===== src/SysPermissions/Tests.antt =====
-- The catalog of one app with a file of its own, and requests under the roles that it gives.
use drf_enterprise_informati.Prelude.{
  ℕ, String, ◌≡◌, refl, true, false, none, some, List, [], ◌∷◌, ok, err, Dict, get, All,
}
use drf_enterprise_informati.SysPermissions.Catalog.{
  Action, removed, declared, ExplicitResource, Explicit, Catalog, roles, generate_default_catalog,
  merge_catalog,
}
use drf_enterprise_informati.SysPermissions.Catalog.Merging.{action_at, merged_action}
use drf_enterprise_informati.SysPermissions.Registry.{
  AppConfig, parsed, get_merged_catalog, get_default_role_permissions, build_effective_catalogs,
  all_permissions, register, grant_all, empty_table, default_roles,
}
use drf_enterprise_informati.SysPermissions.Checks.{SchemaCheck, validate_all}
use drf_enterprise_informati.SysPermissions.Checks.Viewers.{IsRegistered, registry_complete}
use drf_enterprise_informati.SysPermissions.Access.{Membership, Request, has_permission}
use drf_enterprise_informati.SysPermissions.Roles.{
  TenantRole, Attrs, seed_default_roles, save_role, saved_role, write_denied, seeds,
}
use drf_enterprise_informati.SysPermissions.Roles.Viewers.{IsSafe, save_role-IsSafe}
use drf_enterprise_informati.SysPermissions.Roles.Requests.{viewer_cannot_write}
use drf_enterprise_informati.SysPermissions.Roles.Seeding.{ReadsOrAccesses, seeded_viewer_reads}

abbrev export : Action
export = record {
  label = some "Export";
  readonly = some true;
  default_roles = some (roles 1 1 0 1);
}

abbrev docs : ExplicitResource
docs = record {
  label = none;
  actions = some (("delete", removed) ∷ ("export", declared export) ∷ []);
}

abbrev explicit : Explicit
explicit = record {
  access = none;
  resources = some (declared (("docs", declared docs) ∷ ("reports", removed) ∷ []));
}

abbrev defaults : Catalog
defaults = generate_default_catalog "docs"

abbrev app : AppConfig
app = record { name = "apps.docs"; label = "docs"; file = parsed explicit }

abbrev apps : List AppConfig
apps = app ∷ []

abbrev no_errors : SchemaCheck
no_errors file = []

-- The deleted action is gone, the added one and the other defaults are there.
merged_action_example :
    action_at "export" (get "docs" (merge_catalog defaults explicit).resources) ≡ some export
unfolding generate_default_catalog
merged_action_example =
    merged_action "docs" "export" defaults explicit (refl, tt)
      ((refl, (refl, tt)), ((refl, (refl, tt)), (tt, tt)))

valid : validate_all no_errors apps ≡ ok []
unfolding validate_all
valid = refl

unfoldable effective : List (String × Catalog)
unfolding merge_catalog generate_default_catalog
effective = ("docs", merge_catalog (generate_default_catalog "docs") explicit) ∷ []

unfoldable registry : Dict Action
unfolding effective all_permissions register
registry = register (all_permissions effective) []

built : build_effective_catalogs apps ≡ ok effective
unfolding build_effective_catalogs effective
built = refl

merged : get_merged_catalog apps ≡ ok registry
unfolding get_merged_catalog registry
merged = refl

registry_complete_example : All (IsRegistered registry) (all_permissions effective)
registry_complete_example = registry_complete no_errors apps effective registry valid built merged

unfoldable table : Dict (Dict ℕ)
unfolding registry grant_all
table = grant_all registry (empty_table default_roles)

defaults_built : get_default_role_permissions apps ≡ ok table
unfolding get_default_role_permissions table
defaults_built = refl

unfoldable seeded : List TenantRole
unfolding table seeds
seeded = seeds "t1" table

seeding : seed_default_roles apps "t1" true ≡ ok seeded
unfolding seed_default_roles seeded
seeding = refl

seeded_viewer_reads_example : All (ReadsOrAccesses registry) seeded
seeded_viewer_reads_example =
    seeded_viewer_reads no_errors apps "t1" true seeded registry table valid merged defaults_built
      seeding

abbrev attrs : Attrs
attrs = record {
  name = some "Auditor";
  kind = some "viewer";
  description = none;
  permissions = some (("docs.access", 1) ∷ ("docs.docs.export", 1) ∷ []);
}

abbrev auditor : TenantRole
auditor = saved_role "t1" none attrs

saved : save_role apps "t1" none attrs ≡ ok auditor
unfolding save_role
saved = refl

auditor-IsSafe : IsSafe registry auditor
auditor-IsSafe =
    save_role-IsSafe apps "t1" registry none attrs auditor merged (λ old impossible. cc) saved

save_role-IsSafe_example : IsSafe registry auditor
save_role-IsSafe_example =
    save_role-IsSafe apps "t1" registry none attrs auditor merged (λ old impossible. cc) saved

-- A viewer's role is refused a permission that writes.
write_refused :
    save_role apps "t1" none (record attrs { permissions = some (("docs.docs.create", 1) ∷ []) })
    ≡ err write_denied
unfolding save_role
write_refused = refl

abbrev member : Membership
member = record {
  tenant_id = "t1";
  is_active = true;
  is_admin = false;
  permissions = some auditor.permissions;
}

abbrev request : Request
request = record {
  is_authenticated = true;
  auth = some (("tenant_id", "t1") ∷ []);
  memberships = member ∷ [];
}

passed : has_permission "docs.docs.export" request ≡ true
unfolding has_permission
passed = refl

exports : get "docs.docs.export" registry ≡ some export
unfolding registry
exports = refl

viewer_cannot_write_example : export.readonly ≡ some true
viewer_cannot_write_example =
    viewer_cannot_write registry auditor request member "t1" "docs.docs.export" export
      auditor-IsSafe refl refl refl refl refl exports passed
