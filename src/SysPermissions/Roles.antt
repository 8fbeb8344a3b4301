-- ===== src/SysPermissions/Roles.antt =====
-- The roles of a tenant: apps/tenants/signals.py, which seeds them from the catalog, and the
-- serializer of apps/iam_roles/serializers.py, which edits them.
pub mod Viewers
pub mod Requests
pub mod Seeding
use Prim.Native.String.{◌++◌}
use drf_enterprise_informati.Prelude.{
  ℕ, String, ◌≡◌, refl, sym, ap, ◌∙◌, ◌⊎◌, inl, inr, Bool, true, false, ◌&&◌, not, Option, none,
  some, List, [], ◌∷◌, arith, ◌==◌, eq_iff, leb, is_set, is_some, or_default, or_empty,
  if◌then◌else◌, is_empty, any_of, contains, Bool-cases, Option-cases, Dict, get, All, Result, ok,
  err, ◌>>=◌, ◌>>◌, raise_if, ◌≤◌,
}
use drf_enterprise_informati.SysPermissions.Catalog.{Action, capitalize}
use drf_enterprise_informati.SysPermissions.Registry.{
  AppConfig, is_write, get_merged_catalog, get_default_role_permissions,
}

pub record TenantRole : Type 0 where
  pub tenant : String
  pub name : String
  pub kind : String
  pub description : String
  pub permissions : Dict ℕ

-- The loop of `seed_default_roles`.
unfoldable pub seeds : String → Dict (Dict ℕ) → List TenantRole
unfolding capitalize
seeds tenant [] = []
seeds tenant ((role_name, permissions) ∷ rest) =
    record {
      tenant = tenant;
      name = capitalize role_name;
      kind = role_name;
      description = "Default " ++ role_name ++ " role";
      permissions = permissions;
    }
    ∷ seeds tenant rest

-- `seed_default_roles`: the roles it creates
unfoldable pub seed_default_roles : List AppConfig → String → Bool → Result String (List TenantRole)
unfolding seeds get_default_role_permissions
seed_default_roles apps tenant created =
    if not created
    then ok []
    else get_default_role_permissions apps >>= λ role_permissions.
        ok (seeds tenant role_permissions)

-- The fields of a request that the serializer writes.
pub record Attrs : Type 0 where
  pub name : Option String
  pub kind : Option String
  pub description : Option String
  pub permissions : Option (Dict ℕ)

pub data RoleError : Type 0 where
  kind_fixed : RoleError
  write_denied : RoleError
  catalog_error : String → RoleError

-- The comprehension over the catalog.
abbrev pub write_codenames : Dict Action → List String
write_codenames [] = []
write_codenames ((codename, action) ∷ rest) =
    let others = write_codenames rest in if is_write action then codename ∷ others else others

abbrev pub is_violation : List String → String × ℕ → Bool
is_violation writes (codename, value) = leb 1 value && contains codename writes

abbrev pub catalog_of : Result String (Dict Action) → Result RoleError (Dict Action)
catalog_of (ok catalog) = ok catalog
catalog_of (err message) = err (catalog_error message)

-- `attrs.get("kind") or (self.instance.kind if self.instance else None)`
abbrev pub kind_of : Option TenantRole → Attrs → String
kind_of none attrs = or_empty attrs.kind
kind_of (some role) attrs = if is_set (or_empty attrs.kind) then or_empty attrs.kind else role.kind

-- The check of a viewer's permissions.
abbrev pub check_viewer : Attrs → Dict ℕ → Dict Action → Result RoleError Attrs
check_viewer attrs permissions catalog =
    raise_if (any_of (is_violation (write_codenames catalog)) permissions) write_denied >> ok attrs

-- `TenantRoleSerializer.do_validate`
unfoldable pub do_validate : List AppConfig → Option TenantRole → Attrs → Result RoleError Attrs
unfolding get_merged_catalog
do_validate apps instance attrs =
    let permissions = or_default attrs.permissions [] in
    raise_if (is_some instance && is_some attrs.kind) kind_fixed
    >> (if kind_of instance attrs == "viewer" && not (is_empty permissions)
        then catalog_of (get_merged_catalog apps) >>= check_viewer attrs permissions
        else ok attrs)

-- What the serializer then creates or changes; the defaults are the model's.
abbrev pub saved_role : String → Option TenantRole → Attrs → TenantRole
saved_role tenant none attrs = record {
  tenant = tenant;
  name = or_empty attrs.name;
  kind = or_default attrs.kind "custom";
  description = or_empty attrs.description;
  permissions = or_default attrs.permissions [];
}
saved_role tenant (some role) attrs = record {
  tenant = role.tenant;
  name = or_default attrs.name role.name;
  kind = or_default attrs.kind role.kind;
  description = or_default attrs.description role.description;
  permissions = or_default attrs.permissions role.permissions;
}

unfoldable pub save_role :
    List AppConfig → String → Option TenantRole → Attrs → Result RoleError TenantRole
unfolding do_validate
save_role apps tenant instance attrs =
    do_validate apps instance attrs >>= λ valid. ok (saved_role tenant instance valid)
