-- ===== src/SysPermissions/Catalog.antt =====
-- apps/sys_permissions/catalog.py: the catalog of an app, generated and merged with the app's own
-- file. A JSON value that a file may replace by `false` is `Declared`; a catalog that the code has
-- built holds no `false` any more, which its type says.
pub mod Loops
pub mod Merging
use Prim.Native.Char.{Char, code}
use Prim.Native.String.{◌++◌, char_at}
use drf_enterprise_informati.Prelude.{
  ℕ, ◌-◌, String, ◌≡◌, refl, Bool, true, false, ◌&&◌, ◌||◌, not, Option, none, some, List, [], ◌∷◌,
  leb, nat_eq, ◌==◌, if◌then◌else◌, is_some, is_empty, or_default, Dict, get, has_key, put, pop_key,
}
use drf_enterprise_informati.Core.PyPath.{lower}

-- A permission, a dict whose keys a file may leave out.
pub record Action : Type 0 where
  pub label : Option String
  pub readonly : Option Bool
  pub default_roles : Option (Dict ℕ)

pub data Declared (A : Type 0) : Type 0 where
  removed : Declared A
  declared : A → Declared A

-- A permissions.json file.
pub record ExplicitResource : Type 0 where
  pub label : Option String
  pub actions : Option (Dict (Declared Action))

pub record Explicit : Type 0 where
  pub access : Option (Declared Action)
  pub resources : Option (Declared (Dict (Declared ExplicitResource)))

-- A catalog as the code builds it.
pub record Resource : Type 0 where
  pub label : String
  pub actions : Dict Action

pub record Catalog : Type 0 where
  pub access : Option Action
  pub resources : Dict Resource

abbrev pub roles : ℕ → ℕ → ℕ → ℕ → Dict ℕ
roles owner admin member viewer =
    ("owner", owner) ∷ ("admin", admin) ∷ ("member", member) ∷ ("viewer", viewer) ∷ []

-- ACCESS_ACTION
abbrev pub access_action : String → Action
access_action label = record {
  label = some ("Access " ++ lower label);
  readonly = some true;
  default_roles = some (roles 1 1 1 1);
}

-- An action of DEFAULT_CRUD_ACTIONS, labelled for a resource.
abbrev pub crud_action : String → Bool → ℕ → String → Action
crud_action verb readonly others label = record {
  label = some (verb ++ " " ++ lower label);
  readonly = some readonly;
  default_roles = some (roles 1 1 others others);
}

abbrev pub crud_actions : String → Dict Action
crud_actions label =
    ("view", crud_action "View" true 1 label)
    ∷ ("create", crud_action "Create" false 0 label)
    ∷ ("update", crud_action "Update" false 0 label)
    ∷ ("delete", crud_action "Delete" false 0 label)
    ∷ []

upper_char : Char → Char
upper_char c =
    if leb b'a' (code c) && leb (code c) b'z'
    then char_at "ABCDEFGHIJKLMNOPQRSTUVWXYZ" (code c - b'a')
    else c

-- `s.capitalize()`, on ASCII characters
unfoldable pub capitalize : String → String
unfolding upper_char
capitalize String.[] = String.[]
capitalize (String.◌∷◌ c s) = String.◌∷◌ (upper_char c) (lower s)

space_char : Char → Char
space_char c = if nat_eq (code c) b'_' then char_at " " 0 else c

-- `s.replace("_", " ")`
unfoldable pub spaced : String → String
unfolding space_char
spaced String.[] = String.[]
spaced (String.◌∷◌ c s) = String.◌∷◌ (space_char c) (spaced s)

-- `_generate_default_catalog`
unfoldable pub generate_default_catalog : String → Catalog
unfolding spaced
generate_default_catalog app_label =
    let label = capitalize (spaced app_label) in
    record {
      access = some (access_action label);
      resources = (app_label, record { label = label; actions = crud_actions label }) ∷ [];
    }

-- The loop over a resource's explicit actions, which both parts of the merge have.
unfoldable pub merge_actions : Dict Action → Dict (Declared Action) → Dict Action
merge_actions base [] = base
merge_actions base ((name, removed) ∷ rest) = merge_actions (pop_key name base) rest
merge_actions base ((name, declared action) ∷ rest) = merge_actions (put name action base) rest

-- A dict without a key is false.
abbrev pub is_true : Action → Bool
is_true a = is_some a.label || is_some a.readonly || is_some a.default_roles

unfoldable pub merge_access : Option Action → Option (Declared Action) → Option Action
merge_access access none = access
merge_access access (some removed) = none
merge_access access (some (declared action)) = some action

-- `if access: result["access"] = access`
unfoldable pub kept_access : Option Action → Option Action
kept_access none = none
kept_access (some action) = if is_true action then some action else none

-- A default resource, overridden by the explicit one of its name.
unfoldable pub override : Resource → ExplicitResource → Resource
unfolding merge_actions
override resource explicit = record {
  label = or_default explicit.label resource.label;
  actions = merge_actions resource.actions (or_default explicit.actions []);
}

unfoldable pub merge_default :
    String → Resource → Option (Declared ExplicitResource) → Dict Resource → Dict Resource
unfolding override
merge_default name resource none merged = put name resource merged
merge_default name resource (some removed) merged = merged
merge_default name resource (some (declared explicit)) merged =
    put name (override resource explicit) merged

-- The loop over the default resources.
unfoldable pub merge_defaults :
    Dict (Declared ExplicitResource) → Dict Resource → Dict Resource → Dict Resource
unfolding merge_default
merge_defaults explicit [] merged = merged
merge_defaults explicit ((name, resource) ∷ rest) merged =
    merge_defaults explicit rest (merge_default name resource (get name explicit) merged)

-- An explicit resource that no default has: the four actions, overridden.
unfoldable pub added : String → ExplicitResource → Resource
unfolding merge_actions
added name explicit =
    let label = or_default explicit.label (capitalize name) in
    record {
      label = label;
      actions = merge_actions (crud_actions label) (or_default explicit.actions []);
    }

unfoldable pub add_explicit : String → Declared ExplicitResource → Dict Resource → Dict Resource
unfolding added
add_explicit name removed merged = merged
add_explicit name (declared explicit) merged =
    if not (is_empty (added name explicit).actions)
    then put name (added name explicit) merged
    else merged

-- The loop over the explicit resources.
unfoldable pub merge_explicit :
    Dict Resource → Dict (Declared ExplicitResource) → Dict Resource → Dict Resource
unfolding add_explicit
merge_explicit defaults [] merged = merged
merge_explicit defaults ((name, explicit) ∷ rest) merged =
    merge_explicit defaults rest
      (if not (has_key name defaults) then add_explicit name explicit merged else merged)

unfoldable pub merge_resources :
    Dict Resource → Option (Declared (Dict (Declared ExplicitResource))) → Dict Resource
unfolding merge_explicit merge_defaults
merge_resources defaults none = merge_explicit defaults [] (merge_defaults [] defaults [])
merge_resources defaults (some removed) = []
merge_resources defaults (some (declared explicit)) =
    merge_explicit defaults explicit (merge_defaults explicit defaults [])

-- `_merge_catalog`
unfoldable pub merge_catalog : Catalog → Explicit → Catalog
unfolding kept_access merge_access merge_resources
merge_catalog defaults explicit = record {
  access = kept_access (merge_access defaults.access explicit.access);
  resources = merge_resources defaults.resources explicit.resources;
}
