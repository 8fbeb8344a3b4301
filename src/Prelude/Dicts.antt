-- ===== src/Prelude/Dicts.antt =====
-- Python's `dict` with text keys: an association list in insertion order.
use Prim.Native.String.{String}
use mathlib.Core.Path.{◌≡◌, refl}
use mathlib.Core.Bool.{Bool}
use mathlib.Core.Option.{Option, none, some}
use mathlib.Core.List.{List, [], ◌∷◌}
use native.Mathlib.Omega.{arith}
use text.Mathlib.Text.{◌==◌}
use text.Mathlib.TextEquality.{eq_iff}
use drf_enterprise_informati.Prelude.Tests.{if◌then◌else◌, is_some}

abbrev pub Dict {ℓ} : Type ℓ → Type ℓ
Dict V = List (String × V)

module _ {ℓ} {V : Type ℓ} where
  -- `d.get(k)`
  abbrev pub get : String → Dict V → Option V
  get k [] = none
  get k ((j, v) ∷ d) = let rest = get k d in if j == k then some v else rest

  -- `k in d`
  abbrev pub has_key : String → Dict V → Bool
  has_key k d = is_some (get k d)

  -- `d[k] = v`
  abbrev pub put : String → V → Dict V → Dict V
  put k v [] = (k, v) ∷ []
  put k v ((j, w) ∷ d) = let rest = put k v d in if j == k then (j, v) ∷ d else (j, w) ∷ rest

  -- `d.pop(k, None)`
  abbrev pub pop_key : String → Dict V → Dict V
  pop_key k [] = []
  pop_key k ((j, w) ∷ d) = let rest = pop_key k d in if j == k then rest else (j, w) ∷ rest

  -- What every `dict` has: no key twice.
  abbrev pub IsDict : Dict V → Type ℓ
  IsDict [] = Unit
  IsDict ((k, v) ∷ d) = (get k d ≡ none) × IsDict d

  pub get-put :
      (j k : String) (v : V) (d : Dict V) → get j (put k v d) ≡ (if k == j then some v else get j d)
  get-put j k v [] = refl
  get-put j k v ((i, w) ∷ d) = ground (arith, get-put j k v d, eq_iff i k, eq_iff i j, eq_iff k j)

  pub get-pop_key :
      (j k : String) (d : Dict V) → get j (pop_key k d) ≡ (if k == j then none else get j d)
  get-pop_key j k [] = ground arith
  get-pop_key j k ((i, w) ∷ d) =
      ground (arith, get-pop_key j k d, eq_iff i k, eq_iff i j, eq_iff k j)

  pub put-IsDict : (k : String) (v : V) (d : Dict V) → IsDict d → IsDict (put k v d)
  put-IsDict k v [] h = (refl, tt)
  put-IsDict k v ((j, w) ∷ d) (fresh, h) =
      ground (arith, put-IsDict k v d h, get-put j k v d, eq_iff j k, eq_iff k j)

  pub pop_key-IsDict : (k : String) (d : Dict V) → IsDict d → IsDict (pop_key k d)
  pop_key-IsDict k [] h = tt
  pop_key-IsDict k ((j, w) ∷ d) (fresh, h) =
      ground (arith, pop_key-IsDict k d h, get-pop_key j k d, eq_iff j k, eq_iff k j)
