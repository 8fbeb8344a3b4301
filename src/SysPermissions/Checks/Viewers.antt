-- ===== src/SysPermissions/Checks/Viewers.antt =====
-- What the checks say of the registry and of the viewer's default permissions.
use Prim.Native.String.{◌++◌}
use mathlib.Core.Path.{subst}
use drf_enterprise_informati.Prelude.{
  ℕ, eq_refl, eq_iff, String, ◌≡◌, ◌≢◌, refl, sym, ap, ◌∙◌, ◌⊎◌, inl, inr, true, false, ◌&&◌,
  Option, none, some, List, [], ◌∷◌, arith, is_empty, Bool-cases, Dict, get, has_key, put, IsDict,
  All, All-append, All-put, All-get, ok, ok_injective, append_inv,
}
use drf_enterprise_informati.SysPermissions.Catalog.{Action, Catalog, kept_access}
use drf_enterprise_informati.SysPermissions.Registry.{
  AppConfig, joined, access_permission, resource_permissions, permissions_of, all_permissions,
  register, is_write, grants, build_effective_catalogs, get_merged_catalog,
  get_default_role_permissions,
}
use drf_enterprise_informati.SysPermissions.Registry.Roles.{
  get-register, readonly_of, later, permission, default_role_iff, built_from,
}
use drf_enterprise_informati.SysPermissions.Checks.{
  SchemaCheck, viewer_errors, validate_business_rules, validate_uniqueness, files_errors,
  rules_errors, validate_all,
}
use drf_enterprise_informati.SysPermissions.Checks.Uniqueness.{validate_uniqueness_iff}

-- The check does not see an app's access permission.
abbrev pub IsAccess : String → Type 0
IsAccess codename = (app_label : String) × (codename ≡ app_label ++ ".access")

abbrev Allowed : String × Action → Type 0
Allowed (codename, action) =
    ((is_write action && grants "viewer" action) ≡ false) ⊎ IsAccess codename

-- Each listed permission is what the registry has under its codename.
abbrev pub IsRegistered : Dict Action → String × Action → Type 0
IsRegistered registry (codename, action) = get codename registry ≡ some action

rule_broken :
    (app_label codename : String) (action : Action) (rest : Dict Action)
    → (is_write action && grants "viewer" action) ≡ true
    → viewer_errors app_label ((codename, action) ∷ rest) ≢ []
rule_broken app_label codename action rest e h = cc (rw (e) at h)

viewer_errors-Allowed :
    (app_label : String) (ps : Dict Action) → viewer_errors app_label ps ≡ [] → All Allowed ps
viewer_errors-Allowed app_label [] h = tt
viewer_errors-Allowed app_label ((codename, action) ∷ rest) h =
    elim (Bool-cases (is_write action && grants "viewer" action)) [
      | inl e ↦ absurd (rule_broken app_label codename action rest e h)
      | inr e ↦ (inl e, viewer_errors-Allowed app_label rest (ground arith))
    ]

access-Allowed :
    (app_label : String) (access : Option Action) → All Allowed (access_permission app_label access)
access-Allowed app_label none = tt
access-Allowed app_label (some action) = (inr (app_label, refl), tt)

permissions-Allowed :
    (catalogs : List (String × Catalog))
    → rules_errors catalogs ≡ []
    → All Allowed (all_permissions catalogs)
unfolding rules_errors all_permissions validate_business_rules permissions_of
permissions-Allowed [] h = tt
permissions-Allowed ((app_label, catalog) ∷ rest) h =
    let resources = resource_permissions app_label catalog.resources in
    let access = access_permission app_label (kept_access catalog.access) in
    let (here, later) = append_inv (viewer_errors app_label resources) (rules_errors rest) h in
    All-append Allowed (joined access resources) (all_permissions rest)
      (All-append Allowed access resources (access-Allowed app_label (kept_access catalog.access))
        (viewer_errors-Allowed app_label resources here))
      (permissions-Allowed rest later)

registered :
    (ps merged : Dict Action)
    → All Allowed ps
    → All Allowed merged
    → All Allowed (register ps merged)
unfolding register
registered [] merged h m = m
registered ((codename, action) ∷ ps) merged (p, h) m =
    registered ps (put codename action merged) h (All-put Allowed codename action merged p m)

-- What a validation without errors has checked.
validated :
    (iter_errors : SchemaCheck) (apps : List AppConfig) (effective : List (String × Catalog))
    → build_effective_catalogs apps ≡ ok effective
    → validate_all iter_errors apps ≡ ok []
    → (rules_errors effective ≡ []) × (validate_uniqueness effective ≡ [])
unfolding validate_all
validated iter_errors apps effective built h =
    let rules = rules_errors effective in
    elim (Bool-cases (is_empty (files_errors iter_errors apps))) [
      | inl e ↦ append_inv rules (validate_uniqueness effective) (
          ok_injective {E = String} (joined rules (validate_uniqueness effective)) []
            (cc (rw (e, built) at h)))
      | inr e ↦
          let none_left : files_errors iter_errors apps ≡ [] =
            ok_injective {E = String} (files_errors iter_errors apps) [] (cc (rw (e) at h)) in
          ground arith
    ]

entries-IsRegistered :
    (registry ps : Dict Action)
    → IsDict ps
    → ((k : String) → has_key k ps ≡ true → get k registry ≡ get k ps)
    → All (IsRegistered registry) ps
entries-IsRegistered registry [] d same = tt
entries-IsRegistered registry ((c, action) ∷ ps) (fresh, d) same = (
  ground (arith, same c, eq_refl c),
  entries-IsRegistered registry ps d (λ k m. ground (arith, same k, eq_iff c k)),
)

later_none : (entry : Option Action) → later entry none ≡ entry
later_none none = refl
later_none (some action) = refl

-- When the validation of all catalogs reports no error, the registry loses no permission: each
-- permission of each effective catalog is what the registry has under its codename.
pub registry_complete :
    (iter_errors : SchemaCheck) (apps : List AppConfig) (effective : List (String × Catalog))
    (registry : Dict Action)
    → validate_all iter_errors apps ≡ ok []
    → build_effective_catalogs apps ≡ ok effective
    → get_merged_catalog apps ≡ ok registry
    → All (IsRegistered registry) (all_permissions effective)
registry_complete iter_errors apps effective registry valid built merged =
    let (made, (b, same)) = built_from apps registry merged in
    let (rules, unique) = validated iter_errors apps effective built valid in
    let d = (validate_uniqueness_iff effective).0 unique in
    let one : made ≡ effective = ok_injective {E = String} made effective (sym b ∙ built) in
    entries-IsRegistered registry (all_permissions effective) d (λ k m.
      ap (get k) (sym same)
      ∙ ap (λ e. get k (register (all_permissions e) [])) one
      ∙ get-register k (all_permissions effective) [] d
      ∙ later_none (get k (all_permissions effective)))

-- When the validation of all catalogs reports no error, a codename that the viewer role has by
-- default is of a permission marked read-only, or has the form of the codename of an app's access
-- permission. The registry and the permissions are those of the same apps.
pub viewer_reads_only :
    (iter_errors : SchemaCheck) (apps : List AppConfig) (c : String) (action : Action)
    (registry : Dict Action) (table : Dict (Dict ℕ))
    → validate_all iter_errors apps ≡ ok []
    → get_merged_catalog apps ≡ ok registry
    → get_default_role_permissions apps ≡ ok table
    → get c registry ≡ some action
    → permission "viewer" c table ≡ some 1
    → (action.readonly ≡ some true) ⊎ IsAccess c
viewer_reads_only iter_errors apps c action registry table valid merged result found has =
    let (effective, (built, same)) = built_from apps registry merged in
    let (rules, unique) = validated iter_errors apps effective built valid in
    let every =
      subst (All Allowed) same
        (registered (all_permissions effective) [] (permissions-Allowed effective rules) tt) in
    let (granting, (g, gives)) =
      (default_role_iff "viewer" c apps registry table refl merged result).0 has in
    let one : granting ≡ action = cc (g, found) in
    elim (All-get Allowed c action registry every found) [
      | inl safe ↦ inl (readonly_of action.readonly (ground (arith, one, gives)))
      | inr access ↦ inr access
    ]
