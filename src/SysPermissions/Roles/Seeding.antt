-- ===== src/SysPermissions/Roles/Seeding.antt =====
-- The roles that a new tenant gets.
use mathlib.Core.Path.{subst}
use drf_enterprise_informati.Prelude.{
  ℕ, String, ◌≡◌, refl, sym, ◌∙◌, ◌⊎◌, true, Bool, some, List, [], ◌∷◌, arith, eq_iff, Dict, get,
  All, >>=-eq-ok, ok, ok_injective, or_default, IsDict, has_key, eq_refl, All-implies, ap, false,
}
use drf_enterprise_informati.SysPermissions.Catalog.{Action}
use drf_enterprise_informati.SysPermissions.Registry.{
  AppConfig, get_merged_catalog, get_default_role_permissions, default_roles, empty_table,
  grant_all,
}
use drf_enterprise_informati.SysPermissions.Registry.Roles.{grant_all-IsDict}
use drf_enterprise_informati.SysPermissions.Checks.{SchemaCheck, validate_all}
use drf_enterprise_informati.SysPermissions.Checks.Viewers.{IsAccess, viewer_reads_only}
use drf_enterprise_informati.SysPermissions.Roles.{TenantRole, seeds, seed_default_roles}

-- The permissions are the default ones of the role's kind in the default permissions.
IsDefault : Dict (Dict ℕ) → TenantRole → Type 0
IsDefault table role = get role.kind table ≡ some role.permissions

seeds-IsDefault :
    (tenant : String) (table whole : Dict (Dict ℕ))
    → IsDict table
    → ((k : String) → has_key k table ≡ true → get k whole ≡ get k table)
    → All (IsDefault whole) (seeds tenant table)
unfolding seeds IsDefault
seeds-IsDefault tenant [] whole d same = tt
seeds-IsDefault tenant ((name, permissions) ∷ rest) whole (fresh, d) same = (
  ground (arith, same name, eq_refl name),
  seeds-IsDefault tenant rest whole d (λ k m. ground (arith, same k, eq_iff name k)),
)

table-IsDict :
    (apps : List AppConfig) (table : Dict (Dict ℕ))
    → get_default_role_permissions apps ≡ ok table
    → IsDict table
unfolding get_default_role_permissions
table-IsDict apps table h =
    let start = empty_table default_roles in
    let (registry, read, made) =
      >>=-eq-ok (get_merged_catalog apps) (λ m. ok (grant_all m start)) h in
    subst IsDict (ok_injective {E = String} (grant_all registry start) table made)
      (grant_all-IsDict registry start (refl, (refl, (refl, (refl, tt)))))

-- Each role has the default permissions of its kind.
roles-IsDefault :
    (apps : List AppConfig) (tenant : String) (created : Bool) (roles : List TenantRole)
    (table : Dict (Dict ℕ))
    → get_default_role_permissions apps ≡ ok table
    → seed_default_roles apps tenant created ≡ ok roles
    → All (IsDefault table) roles
unfolding seed_default_roles
roles-IsDefault apps tenant false roles table built h =
    subst (All (IsDefault table)) (ok_injective {E = String} [] roles h) tt
roles-IsDefault apps tenant true roles table built h =
    let made : seeds tenant table ≡ roles =
      ok_injective {E = String} (seeds tenant table) roles (rw (built) at h) in
    subst (All (IsDefault table)) made
      (seeds-IsDefault tenant table table (table-IsDict apps table built) (λ k m. refl))

-- What a viewer's role may hold: read-only permissions, and access permissions.
abbrev pub ReadsOrAccesses : Dict Action → TenantRole → Type 0
ReadsOrAccesses registry role =
    role.kind ≡ "viewer"
    → (c : String) (action : Action) → get c role.permissions ≡ some 1
    → get c registry ≡ some action
    → (action.readonly ≡ some true) ⊎ IsAccess c

-- When the validation of all catalogs reports no error, the roles that are seeded for a tenant give
-- a viewer only permissions that the registry marks read-only, or whose codename has the form of an
-- access permission's.
pub seeded_viewer_reads :
    (iter_errors : SchemaCheck) (apps : List AppConfig) (tenant : String) (created : Bool)
    (roles : List TenantRole) (registry : Dict Action) (table : Dict (Dict ℕ))
    → validate_all iter_errors apps ≡ ok []
    → get_merged_catalog apps ≡ ok registry
    → get_default_role_permissions apps ≡ ok table
    → seed_default_roles apps tenant created ≡ ok roles
    → All (ReadsOrAccesses registry) roles
unfolding IsDefault
seeded_viewer_reads iter_errors apps tenant created roles registry table valid merged built seeded =
    All-implies (IsDefault table) (ReadsOrAccesses registry) roles
      (λ role default viewer c action one found.
        viewer_reads_only iter_errors apps c action registry table valid merged built found
          (ap (λ o. get c (or_default o [])) (ap (λ k. get k table) (sym viewer) ∙ default) ∙ one))
      (roles-IsDefault apps tenant created roles table built seeded)
