-- ===== src/SysPermissions/Roles/Viewers.antt =====
-- A viewer's role never grants a permission that writes.
use mathlib.Core.Path.{subst}
use drf_enterprise_informati.Prelude.{
  ℕ, String, ◌≡◌, ◌≢◌, refl, ap, inl, inr, true, false, ◌&&◌, not, Option, none, some, List, [],
  ◌∷◌, arith, ◌==◌, eq_iff, is_some, or_default, or_empty, is_empty, any_of, contains, Bool-cases,
  Option-cases, Dict, get, ok, raise_if-ok, ok_injective, >>=-eq-ok, is_empty_inv, ◌≤◌,
}
use drf_enterprise_informati.SysPermissions.Catalog.{Action}
use drf_enterprise_informati.SysPermissions.Registry.{AppConfig, is_write, get_merged_catalog}
use drf_enterprise_informati.SysPermissions.Registry.Roles.{readonly_of}
use drf_enterprise_informati.SysPermissions.Roles.{
  TenantRole, Attrs, RoleError, kind_fixed, write_denied, write_codenames, is_violation, catalog_of,
  kind_of, check_viewer, do_validate, saved_role, save_role,
}

-- A viewer's role grants no permission that the catalog lets write.
abbrev pub ReadsOnly : Dict Action → Dict ℕ → Type 0
ReadsOnly catalog permissions =
    (c : String) (value : ℕ) (action : Action)
    → get c permissions ≡ some value
    → 1 ≤ value
    → get c catalog ≡ some action
    → action.readonly ≡ some true

abbrev pub IsSafe : Dict Action → TenantRole → Type 0
IsSafe catalog role = role.kind ≡ "viewer" → ReadsOnly catalog role.permissions

write_listed :
    (c : String) (catalog : Dict Action) (action : Action)
    → get c catalog ≡ some action
    → is_write action ≡ true
    → contains c (write_codenames catalog) ≡ true
write_listed c [] action found w = cc
write_listed c ((d, other) ∷ rest) action found w =
    ground (arith, write_listed c rest action, eq_iff d c)

no_violation :
    (writes : List String) (permissions : Dict ℕ) (c : String) (value : ℕ)
    → any_of (is_violation writes) permissions ≡ false
    → get c permissions ≡ some value
    → 1 ≤ value
    → contains c writes ≡ false
no_violation writes [] c value h found one = cc
no_violation writes ((d, v) ∷ rest) c value h found one =
    ground (arith, no_violation writes rest c value, eq_iff d c)

custom_ne : ◌≢◌ {A = String} "custom" "viewer"
custom_ne h = let bad : ("custom" == "viewer") ≡ true = (eq_iff "custom" "viewer").1 h in cc

checked_ReadsOnly :
    (attrs : Attrs) (permissions : Dict ℕ) (catalog : Dict Action) (valid : Attrs)
    → check_viewer attrs permissions catalog ≡ ok valid
    → ReadsOnly catalog permissions
checked_ReadsOnly attrs permissions catalog valid h c value action held one found =
    let writes = write_codenames catalog in
    let clean =
      (raise_if-ok (any_of (is_violation writes) permissions) write_denied (ok attrs) h).0 in
    elim (Bool-cases (is_write action)) [
      | inl w ↦ ground (
        arith,
        no_violation writes permissions c value clean held one,
        write_listed c catalog action found w,
      )
      | inr w ↦ readonly_of action.readonly w
    ]

-- What a validation that returns has checked of a role that is a viewer's.
validated_ReadsOnly :
    (apps : List AppConfig) (instance : Option TenantRole) (attrs valid : Attrs)
    (catalog : Dict Action)
    → get_merged_catalog apps ≡ ok catalog
    → do_validate apps instance attrs ≡ ok valid
    → kind_of instance attrs ≡ "viewer"
    → ReadsOnly catalog (or_default attrs.permissions [])
unfolding do_validate
validated_ReadsOnly apps instance attrs valid catalog merged h viewer =
    let permissions = or_default attrs.permissions [] in
    let (fixed, rest) = raise_if-ok (is_some instance && is_some attrs.kind) kind_fixed _ h in
    elim (Bool-cases (is_empty permissions)) [
      | inl e ↦
          λ c value action held one found. ground (arith, ap (get c) (is_empty_inv permissions e))
      | inr e ↦
          checked_ReadsOnly attrs permissions catalog valid
            (rw ((eq_iff (kind_of instance attrs) "viewer").1 viewer, e, merged) at rest)
    ]

check_viewer_same :
    (attrs : Attrs) (permissions : Dict ℕ) (catalog : Dict Action) (valid : Attrs)
    → check_viewer attrs permissions catalog ≡ ok valid
    → attrs ≡ valid
check_viewer_same attrs permissions catalog valid h =
    let broken = any_of (is_violation (write_codenames catalog)) permissions in
    ok_injective {E = RoleError} attrs valid (raise_if-ok broken write_denied (ok attrs) h).1

do_validate_same :
    (apps : List AppConfig) (instance : Option TenantRole) (attrs valid : Attrs)
    → do_validate apps instance attrs ≡ ok valid
    → attrs ≡ valid
unfolding do_validate
do_validate_same apps instance attrs valid h =
    let permissions = or_default attrs.permissions [] in
    let (fixed, rest) = raise_if-ok (is_some instance && is_some attrs.kind) kind_fixed _ h in
    elim (Bool-cases (kind_of instance attrs == "viewer" && not (is_empty permissions))) [
      | inl e ↦
          let (catalog, read, checked) =
            >>=-eq-ok (catalog_of (get_merged_catalog apps)) (check_viewer attrs permissions)
              (rw (e) at rest) in
          check_viewer_same attrs permissions catalog valid checked
      | inr e ↦ ok_injective {E = RoleError} attrs valid (rw (e) at rest)
    ]

given_kind : (kind : Option String) → or_default kind "custom" ≡ "viewer" → or_empty kind ≡ "viewer"
given_kind none h = absurd (custom_ne h)
given_kind (some kind) h = h

-- Only a request without a kind changes a role, so the role keeps its kind.
kept_kind :
    (apps : List AppConfig) (role : TenantRole) (attrs valid : Attrs)
    → do_validate apps (some role) attrs ≡ ok valid
    → attrs.kind ≡ none
unfolding do_validate
kept_kind apps role attrs valid h =
    let (fixed, rest) = raise_if-ok (is_some attrs.kind) kind_fixed _ h in
    elim (Option-cases attrs.kind) [ inl e ↦ e | inr (kind, e) ↦ ground (arith, e) ]

module _ (apps : List AppConfig) (tenant : String) (catalog : Dict Action) where
  saved_IsSafe :
      (instance : Option TenantRole) (attrs : Attrs)
      → get_merged_catalog apps ≡ ok catalog
      → do_validate apps instance attrs ≡ ok attrs
      → ((old : TenantRole) → instance ≡ some old → IsSafe catalog old)
      → IsSafe catalog (saved_role tenant instance attrs)
  saved_IsSafe none attrs merged valid old viewer =
      validated_ReadsOnly apps none attrs attrs catalog merged valid (given_kind attrs.kind viewer)
  saved_IsSafe (some role) attrs merged valid old viewer =
      let no_kind = kept_kind apps role attrs attrs valid in
      let same : role.kind ≡ "viewer" = rw (no_kind) at viewer in
      elim (Option-cases attrs.permissions) [
        | inl e ↦ rw (e) (old role refl same)
        | inr (permissions, e) ↦
            let asked =
              validated_ReadsOnly apps (some role) attrs attrs catalog merged valid
                (rw (no_kind) same) in
            rw (e) (rw (e) at asked)
      ]

  -- Whatever is created or changed through the serializer, a role of the kind viewer grants only
  -- permissions that the catalog marks read-only, if the role had this property before the change.
  pub save_role-IsSafe :
      (instance : Option TenantRole) (attrs : Attrs) (role : TenantRole)
      → get_merged_catalog apps ≡ ok catalog
      → ((old : TenantRole) → instance ≡ some old → IsSafe catalog old)
      → save_role apps tenant instance attrs ≡ ok role
      → IsSafe catalog role
  unfolding save_role
  save_role-IsSafe instance attrs role merged old saved =
      let (valid, checked, made) =
        >>=-eq-ok (do_validate apps instance attrs) (λ v. ok (saved_role tenant instance v))
          saved in
      let same = do_validate_same apps instance attrs valid checked in
      subst (IsSafe catalog)
        (ok_injective {E = RoleError} (saved_role tenant instance valid) role made)
        (saved_IsSafe instance valid merged
          (subst (λ a. do_validate apps instance a ≡ ok valid) same checked) old)
