-- ===== src/SysPermissions/Catalog/Loops.antt =====
-- What each loop of the merge leaves under a name.
use drf_enterprise_informati.Prelude.{
  String, ◌≡◌, refl, ap, ◌∙◌, Bool, false, not, Option, none, some, [], ◌∷◌, arith, ◌||◌, ◌==◌,
  eq_iff, inl, inr, if◌then◌else◌, is_some, is_empty, Bool-cases, Dict, get, has_key, put, pop_key,
  IsDict, get-put, get-pop_key,
}
use drf_enterprise_informati.SysPermissions.Catalog.{
  Action, Declared, removed, declared, ExplicitResource, Resource, merge_actions, override,
  merge_default, merge_defaults, added, add_explicit, merge_explicit,
}

-- The independent description: `false` removes, a definition replaces, and what the file does not
-- name stays.
abbrev pub chosen : Option (Declared Action) → Option Action → Option Action
chosen none base = base
chosen (some removed) base = none
chosen (some (declared action)) base = some action

pub get-merge_actions :
    (n : String) (base : Dict Action) (explicit : Dict (Declared Action))
    → IsDict explicit
    → get n (merge_actions base explicit) ≡ chosen (get n explicit) (get n base)
unfolding merge_actions
get-merge_actions n base [] h = refl
get-merge_actions n base ((m, removed) ∷ rest) (fresh, h) =
    ground (arith, get-merge_actions n (pop_key m base) rest h, get-pop_key n m base, eq_iff m n)
get-merge_actions n base ((m, declared action) ∷ rest) (fresh, h) =
    ground
      (arith, get-merge_actions n (put m action base) rest h, get-put n m action base, eq_iff m n)

abbrev pub overridden :
    Resource → Option (Declared ExplicitResource) → Option Resource → Option Resource
overridden resource none merged = some resource
overridden resource (some removed) merged = merged
overridden resource (some (declared explicit)) merged = some (override resource explicit)

abbrev defaults_outcome :
    Option Resource → Option (Declared ExplicitResource) → Option Resource → Option Resource
defaults_outcome none explicit merged = merged
defaults_outcome (some resource) explicit merged = overridden resource explicit merged

get-merge_default :
    (r n : String) (resource : Resource) (e : Option (Declared ExplicitResource))
    (merged : Dict Resource)
    → get r (merge_default n resource e merged)
      ≡ (if n == r then overridden resource e (get r merged) else get r merged)
unfolding merge_default
get-merge_default r n resource none merged = ground (arith, get-put r n resource merged)
get-merge_default r n resource (some removed) merged = ground arith
get-merge_default r n resource (some (declared e)) merged =
    ground (arith, get-put r n (override resource e) merged)

get-merge_defaults :
    (r : String) (explicit : Dict (Declared ExplicitResource)) (defaults merged : Dict Resource)
    → IsDict defaults
    → get r (merge_defaults explicit defaults merged)
      ≡ defaults_outcome (get r defaults) (get r explicit) (get r merged)
unfolding merge_defaults
get-merge_defaults r explicit [] merged h = refl
get-merge_defaults r explicit ((n, resource) ∷ rest) merged (fresh, h) =
    let next = merge_default n resource (get n explicit) merged in
    let ih = get-merge_defaults r explicit rest next h in
    let step = get-merge_default r n resource (get n explicit) merged in
    elim (Bool-cases (n == r)) [
      | inl e ↦ ground (arith, ih, step, fresh, eq_iff n r)
      | inr e ↦ ground (arith, ih, step)
    ]

abbrev pub explicit_outcome :
    Bool → String → Option (Declared ExplicitResource) → Option Resource → Option Resource
explicit_outcome default n none merged = merged
explicit_outcome default n (some removed) merged = merged
explicit_outcome default n (some (declared e)) merged =
    if default || is_empty (added n e).actions then merged else some (added n e)

get-add_explicit :
    (r n : String) (e : Declared ExplicitResource) (merged : Dict Resource)
    → get r (add_explicit n e merged)
      ≡ (if n == r then explicit_outcome false r (some e) (get r merged) else get r merged)
unfolding add_explicit
get-add_explicit r n removed merged = ground arith
get-add_explicit r n (declared e) merged =
    ground (arith, get-put r n (added n e) merged, eq_iff n r)

abbrev add_round :
    Dict Resource → String → Declared ExplicitResource → Dict Resource → Dict Resource
add_round defaults n e merged = if not (has_key n defaults) then add_explicit n e merged else merged

get-add_round :
    (r n : String) (defaults : Dict Resource) (e : Declared ExplicitResource)
    (merged : Dict Resource)
    → get r (add_round defaults n e merged) ≡ (
        if n == r
        then explicit_outcome (has_key r defaults) r (some e) (get r merged)
        else get r merged)
unfolding add_explicit
get-add_round r n defaults removed merged = ground arith
get-add_round r n defaults (declared e) merged = elim (Bool-cases (has_key n defaults)) [
  | inl known ↦ ground (arith, eq_iff n r)
  | inr fresh ↦ ground (arith, get-add_explicit r n (declared e) merged, eq_iff n r)
]

get-merge_explicit :
    (r : String) (defaults : Dict Resource) (explicit : Dict (Declared ExplicitResource))
    (merged : Dict Resource)
    → IsDict explicit
    → get r (merge_explicit defaults explicit merged)
      ≡ explicit_outcome (has_key r defaults) r (get r explicit) (get r merged)
unfolding merge_explicit
get-merge_explicit r defaults [] merged h = refl
get-merge_explicit r defaults ((n, e) ∷ rest) merged (fresh, h) =
    let ih = get-merge_explicit r defaults rest (add_round defaults n e merged) h in
    let step = get-add_round r n defaults e merged in
    elim (Bool-cases (n == r)) [
      | inl same ↦ ground (arith, ih, step, fresh, eq_iff n r)
      | inr other ↦ ground (arith, ih, step)
    ]

-- The two loops together.
abbrev pub resource_outcome :
    Option Resource → String → Option (Declared ExplicitResource) → Option Resource
resource_outcome (some resource) r explicit = overridden resource explicit none
resource_outcome none r explicit = explicit_outcome false r explicit none

resource_outcome-two :
    (r : String) (default : Option Resource) (explicit : Option (Declared ExplicitResource))
    → explicit_outcome (is_some default) r explicit (defaults_outcome default explicit none)
      ≡ resource_outcome default r explicit
resource_outcome-two r none none = refl
resource_outcome-two r none (some removed) = refl
resource_outcome-two r none (some (declared e)) = refl
resource_outcome-two r (some resource) none = refl
resource_outcome-two r (some resource) (some removed) = refl
resource_outcome-two r (some resource) (some (declared e)) = refl

pub get-merged :
    (r : String) (defaults : Dict Resource) (explicit : Dict (Declared ExplicitResource))
    → IsDict defaults
    → IsDict explicit
    → get r (merge_explicit defaults explicit (merge_defaults explicit defaults []))
      ≡ resource_outcome (get r defaults) r (get r explicit)
get-merged r defaults explicit hd he =
    let first = get-merge_defaults r explicit defaults [] hd in
    let second = get-merge_explicit r defaults explicit (merge_defaults explicit defaults []) he in
    second
    ∙ ap (explicit_outcome (has_key r defaults) r (get r explicit)) first
    ∙ resource_outcome-two r (get r defaults) (get r explicit)
