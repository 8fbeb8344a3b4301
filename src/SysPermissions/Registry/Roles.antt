-- ===== src/SysPermissions/Registry/Roles.antt =====
-- What the registry holds, and what a default role may do.
use mathlib.Core.Path.{subst}
use drf_enterprise_informati.Prelude.{
  ℕ, String, ◌≡◌, ◌↔◌, refl, sym, ap, ◌∙◌, Bool, true, false, ◌&&◌, not, Option, none, some, List,
  [], ◌∷◌, arith, ◌==◌, eq_iff, inl, inr, if◌then◌else◌, Bool-cases, or_default, contains, Dict,
  get, put, IsDict, get-put, put-IsDict, ok, ◌>>=◌, >>=-eq-ok, ok_injective,
}
use drf_enterprise_informati.SysPermissions.Catalog.{Action, Catalog}
use drf_enterprise_informati.SysPermissions.Registry.{
  AppConfig, all_permissions, grants, register, default_roles, set_one, grant_roles, grant_all,
  empty_table, get_merged_catalog, get_default_role_permissions, build_effective_catalogs,
}

-- A permission that is not marked as one that writes is marked read-only.
pub readonly_of :
    (readonly : Option Bool) → not (or_default readonly false) ≡ false → readonly ≡ some true
readonly_of none h = cc
readonly_of (some true) h = refl
readonly_of (some false) h = cc

-- The later of the two wins.
abbrev pub later : Option Action → Option Action → Option Action
later none old = old
later (some action) old = some action

pub get-register :
    (k : String) (ps merged : Dict Action)
    → IsDict ps
    → get k (register ps merged) ≡ later (get k ps) (get k merged)
unfolding register
get-register k [] merged d = refl
get-register k ((c, action) ∷ ps) merged (fresh, d) =
    ground (arith, get-register k ps (put c action merged) d, get-put k c action merged, eq_iff c k)

pub register-IsDict : (ps merged : Dict Action) → IsDict merged → IsDict (register ps merged)
unfolding register
register-IsDict [] merged d = d
register-IsDict ((c, action) ∷ ps) merged d =
    register-IsDict ps (put c action merged) (put-IsDict c action merged d)

-- The permission `table[role].get(codename)`
abbrev pub permission : String → String → Dict (Dict ℕ) → Option ℕ
permission role codename table = get codename (or_default (get role table) [])

permission-set_one :
    (r c role codename : String) (table : Dict (Dict ℕ))
    → permission r c (set_one role codename table)
      ≡ (if role == r && codename == c then some 1 else permission r c table)
permission-set_one r c role codename table = ground (
  arith,
  get-put r role (put codename 1 (or_default (get role table) [])) table,
  get-put c codename 1 (or_default (get role table) []),
  eq_iff role r,
)

permission-grant_roles :
    (r c codename : String) (action : Action) (roles : List String) (table : Dict (Dict ℕ))
    → permission r c (grant_roles codename action roles table) ≡ (
        if contains r roles && (grants r action && codename == c)
        then some 1
        else permission r c table)
unfolding grant_roles
permission-grant_roles r c codename action [] table = refl
permission-grant_roles r c codename action (role ∷ rest) table =
    let set = permission-grant_roles r c codename action rest (set_one role codename table) in
    let kept = permission-grant_roles r c codename action rest table in
    let one = permission-set_one r c role codename table in
    elim (Bool-cases (role == r)) [
      | inl e ↦
          let same : role ≡ r = (eq_iff role r).0 e in
          elim (Bool-cases (grants role action)) [
            | inl g ↦ ground (arith, set, kept, one)
            | inr g ↦ ground (arith, set, kept, one)
          ]
      | inr e ↦ elim (Bool-cases (grants role action)) [
        | inl g ↦ ground (arith, set, kept, one)
        | inr g ↦ ground (arith, set, kept, one)
      ]
    ]

abbrev granted : String → Option Action → Bool
granted r none = false
granted r (some action) = grants r action

permission-grant_all :
    (r c : String) (registry : Dict Action) (table : Dict (Dict ℕ))
    → IsDict registry
    → contains r default_roles ≡ true
    → permission r c (grant_all registry table)
      ≡ (if granted r (get c registry) then some 1 else permission r c table)
unfolding grant_all
permission-grant_all r c [] table d known = refl
permission-grant_all r c ((codename, action) ∷ rest) table (fresh, d) known =
    let next = grant_roles codename action default_roles table in
    let ih = permission-grant_all r c rest next d known in
    let step = permission-grant_roles r c codename action default_roles table in
    elim (Bool-cases (codename == c)) [
      | inl e ↦ elim (Bool-cases (grants r action)) [
        | inl g ↦ ground (arith, ih, step, known, fresh, eq_iff codename c)
        | inr g ↦ ground (arith, ih, step, known, fresh, eq_iff codename c)
      ]
      | inr e ↦ ground (arith, ih, step)
    ]

permission-empty_table :
    (r c : String) (roles : List String) → permission r c (empty_table roles) ≡ none
permission-empty_table r c [] = refl
permission-empty_table r c (role ∷ roles) = ground (arith, permission-empty_table r c roles)

grant_roles-IsDict :
    (codename : String) (action : Action) (roles : List String) (table : Dict (Dict ℕ))
    → IsDict table
    → IsDict (grant_roles codename action roles table)
unfolding grant_roles
grant_roles-IsDict codename action [] table d = d
grant_roles-IsDict codename action (role ∷ rest) table d =
    let row = put codename 1 (or_default (get role table) []) in
    elim (Bool-cases (grants role action)) [
      | inl e ↦ rw (e) (
          grant_roles-IsDict codename action rest (set_one role codename table)
            (put-IsDict role row table d))
      | inr e ↦ rw (e) (grant_roles-IsDict codename action rest table d)
    ]

pub grant_all-IsDict :
    (registry : Dict Action) (table : Dict (Dict ℕ))
    → IsDict table
    → IsDict (grant_all registry table)
unfolding grant_all
grant_all-IsDict [] table d = d
grant_all-IsDict ((codename, action) ∷ rest) table d =
    grant_all-IsDict rest (grant_roles codename action default_roles table)
      (grant_roles-IsDict codename action default_roles table d)

-- The registry that the code builds is a dict of the permissions of the effective catalogs.
pub built_from :
    (apps : List AppConfig) (registry : Dict Action)
    → get_merged_catalog apps ≡ ok registry
    → (effective : List (String × Catalog)) × ((build_effective_catalogs apps ≡ ok effective)
        × (register (all_permissions effective) [] ≡ registry))
unfolding get_merged_catalog
built_from apps registry h =
    let (effective, built, same) =
      >>=-eq-ok (build_effective_catalogs apps) (λ e. ok (register (all_permissions e) [])) h in
    (effective, (built, ok_injective (register (all_permissions effective) []) registry same))

registry-IsDict :
    (apps : List AppConfig) (registry : Dict Action)
    → get_merged_catalog apps ≡ ok registry
    → IsDict registry
registry-IsDict apps registry h =
    let (effective, (built, same)) = built_from apps registry h in
    subst IsDict same (register-IsDict (all_permissions effective) [] tt)

granted_iff :
    (r : String) (entry : Option Action)
    → (granted r entry ≡ true)
      ↔ ((action : Action) × ((entry ≡ some action) × (grants r action ≡ true)))
granted_iff r none = (λ h. cc, λ h. cc)
granted_iff r (some action) = (λ h. (action, (refl, h)), λ (a, (e, g)). cc)

pub default_role :
    (r c : String) (apps : List AppConfig) (registry : Dict Action) (table : Dict (Dict ℕ))
    → contains r default_roles ≡ true
    → get_merged_catalog apps ≡ ok registry
    → get_default_role_permissions apps ≡ ok table
    → permission r c table ≡ (if granted r (get c registry) then some 1 else none)
unfolding get_default_role_permissions
default_role r c apps registry table known merged result =
    let start = empty_table default_roles in
    let same =
      ok_injective (grant_all registry start) table
        (sym (ap (λ m. m >>= λ r'. ok (grant_all r' start)) merged) ∙ result) in
    ap (permission r c) (sym same)
    ∙ permission-grant_all r c registry start (registry-IsDict apps registry merged) known
    ∙ ap (λ o. if granted r (get c registry) then some 1 else o)
        (permission-empty_table r c default_roles)

-- A default role has a codename in its default permissions exactly if the registry has a permission
-- of that codename whose `default_roles` gives the role 1. The registry and the permissions are
-- those of the same apps.
pub default_role_iff :
    (r c : String) (apps : List AppConfig) (registry : Dict Action) (table : Dict (Dict ℕ))
    → contains r default_roles ≡ true
    → get_merged_catalog apps ≡ ok registry
    → get_default_role_permissions apps ≡ ok table
    → (permission r c table ≡ some 1)
      ↔ ((action : Action) × ((get c registry ≡ some action) × (grants r action ≡ true)))
default_role_iff r c apps registry table known merged result =
    let lookup = default_role r c apps registry table known merged result in
    let (from, to) = granted_iff r (get c registry) in
    (λ h. from (ground (arith, lookup)), λ h. ground (arith, lookup, to h))
