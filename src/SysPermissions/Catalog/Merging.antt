-- ===== src/SysPermissions/Catalog/Merging.antt =====
-- What a merged catalog holds, action by action.
use drf_enterprise_informati.Prelude.{
  String, ◌≡◌, refl, ap, ◌∙◌, true, Option, none, some, [], ◌∷◌, arith, inl, inr, is_empty,
  Bool-cases, or_default, Dict, get, IsDict, All, All-get,
}
use drf_enterprise_informati.SysPermissions.Catalog.{
  Action, Declared, removed, declared, ExplicitResource, Explicit, Resource, Catalog, crud_actions,
  capitalize, merge_actions, override, added, merge_explicit, merge_resources, merge_catalog,
}
use drf_enterprise_informati.SysPermissions.Catalog.Loops.{
  chosen, get-merge_actions, resource_outcome, get-merged,
}

abbrev pub action_at : String → Option Resource → Option Action
action_at a none = none
action_at a (some resource) = get a resource.actions

-- What a resource has before its explicit actions count: its default actions, or the four of an
-- app when no default has its name.
abbrev pub base_action : Option Resource → String → String → ExplicitResource → Option Action
base_action none r a e = get a (crud_actions (or_default e.label (capitalize r)))
base_action (some resource) r a e = get a resource.actions

abbrev pub expected_action :
    Option Resource → String → String → Option (Declared ExplicitResource) → Option Action
expected_action default r a none = action_at a default
expected_action default r a (some removed) = none
expected_action default r a (some (declared e)) =
    chosen (get a (or_default e.actions [])) (base_action default r a e)

-- The description of a merge: `"resources": false` leaves nothing.
abbrev pub expected :
    Option Resource
    → String
    → String
    → Option (Declared (Dict (Declared ExplicitResource)))
    → Option Action
expected default r a none = action_at a default
expected default r a (some removed) = none
expected default r a (some (declared file)) = expected_action default r a (get r file)

abbrev pub HasDictActions : String × Declared ExplicitResource → Type 0
HasDictActions (r, removed) = Unit
HasDictActions (r, declared e) = IsDict (or_default e.actions [])

abbrev pub ResourcesAreDicts : Option (Declared (Dict (Declared ExplicitResource))) → Type 0
ResourcesAreDicts none = Unit
ResourcesAreDicts (some removed) = Unit
ResourcesAreDicts (some (declared file)) = IsDict file × All HasDictActions file

-- No object of the file has a key twice, as `json.loads` gives it.
abbrev pub IsFile : Explicit → Type 0
IsFile explicit = ResourcesAreDicts explicit.resources

get-nil : (a : String) (l : Dict Action) → is_empty l ≡ true → get a l ≡ none
get-nil a [] h = refl
get-nil a (x ∷ l) h = cc

outcome_action :
    (r a : String) (default : Option Resource) (explicit : Option (Declared ExplicitResource))
    → ((e : ExplicitResource) → explicit ≡ some (declared e) → IsDict (or_default e.actions []))
    → action_at a (resource_outcome default r explicit) ≡ expected_action default r a explicit
unfolding override added merge_actions
outcome_action r a none none h = refl
outcome_action r a (some resource) none h = refl
outcome_action r a none (some removed) h = refl
outcome_action r a (some resource) (some removed) h = refl
outcome_action r a (some resource) (some (declared e)) h =
    get-merge_actions a resource.actions (or_default e.actions []) (h e refl)
outcome_action r a none (some (declared e)) h =
    let label = or_default e.label (capitalize r) in
    let each = get-merge_actions a (crud_actions label) (or_default e.actions []) (h e refl) in
    elim (Bool-cases (is_empty (added r e).actions)) [
      | inl empty ↦ ground (arith, each, get-nil a (added r e).actions empty)
      | inr full ↦ ground (arith, each)
    ]

merge_resources_lem :
    (r a : String) (defaults : Dict Resource)
    (file : Option (Declared (Dict (Declared ExplicitResource))))
    → IsDict defaults
    → ResourcesAreDicts file
    → action_at a (get r (merge_resources defaults file)) ≡ expected (get r defaults) r a file
unfolding merge_resources merge_explicit
merge_resources_lem r a defaults none hd hf =
    ap (action_at a) (get-merged r defaults [] hd tt)
    ∙ outcome_action r a (get r defaults) none (λ e impossible. cc)
merge_resources_lem r a defaults (some removed) hd hf = refl
merge_resources_lem r a defaults (some (declared file)) hd (hf, each) =
    ap (action_at a) (get-merged r defaults file hd hf)
    ∙ outcome_action r a (get r defaults) (get r file)
        (λ e found. All-get HasDictActions r (declared e) file each found)

-- What a merged catalog says of any action of any resource is what the description says: nothing if
-- the file disables its resources, the resource or the action; else the file's definition if it has
-- one; else the default. A resource that only the file names starts from the four default actions.
-- The objects of the file and the defaults have no key twice.
pub merged_action :
    (r a : String) (defaults : Catalog) (explicit : Explicit)
    → IsDict defaults.resources
    → IsFile explicit
    → action_at a (get r (merge_catalog defaults explicit).resources)
      ≡ expected (get r defaults.resources) r a explicit.resources
unfolding merge_catalog
merged_action r a defaults explicit hd hf =
    merge_resources_lem r a defaults.resources explicit.resources hd hf
