-- ===== src/Prelude/DictLists.antt =====
-- Dicts that grow out of lists of entries.
use Prim.Native.String.{String}
use mathlib.Core.Path.{◌≡◌, refl, sym, subst}
use mathlib.Core.Logic.{inl, inr}
use mathlib.Core.Bool.{true, ◌||◌}
use mathlib.Core.Option.{none, some}
use mathlib.Core.List.{[], ◌∷◌, ◌++◌}
use native.Mathlib.Omega.{arith}
use text.Mathlib.Text.{◌==◌}
use text.Mathlib.TextEquality.{eq_iff}
use text.Mathlib.TextPositions.{eq_refl}
use drf_enterprise_informati.Prelude.Tests.{Option-cases, Bool-cases}
use drf_enterprise_informati.Prelude.Lists.{All}
use drf_enterprise_informati.Prelude.Dicts.{Dict, get, has_key, put, IsDict}

module _ {ℓ} {V : Type ℓ} where
  pub get-append : (k : String) (a b : Dict V) → has_key k (a ++ b) ≡ (has_key k a || has_key k b)
  get-append k [] b = refl
  get-append k ((j, v) ∷ a) b = ground (arith, get-append k a b)

module _ {ℓ κ} {V : Type ℓ} {W : Type κ} where
  -- No key of the one is a key of the other.
  abbrev pub Apart : Dict V → Dict W → Type κ
  Apart a b = (k : String) → has_key k a ≡ true → get k b ≡ none

  pub Apart-head :
      (k : String) (v : V) (a : Dict V) (b : Dict W) → Apart ((k, v) ∷ a) b → get k b ≡ none
  Apart-head k v a b h = h k (ground (arith, eq_refl k))

module _ {ℓ} {V : Type ℓ} where
  pub IsDict-append : (a b : Dict V) → IsDict a → IsDict b → Apart a b → IsDict (a ++ b)
  IsDict-append [] b ha hb apart = hb
  IsDict-append ((k, v) ∷ a) b (fresh, ha) hb apart = (
    ground (arith, get-append k a b, Apart-head k v a b apart),
    IsDict-append a b ha hb (λ j h. apart j (ground arith)),
  )

  pub append-IsDict : (a b : Dict V) → IsDict (a ++ b) → IsDict a × (IsDict b × Apart a b)
  append-IsDict [] b h = (tt, (h, λ k m. cc))
  append-IsDict ((k, v) ∷ a) b (fresh, h) =
      let (ha, (hb, apart)) = append-IsDict a b h in
      (
        (ground (arith, get-append k a b), ha),
        (hb, λ j m. ground (arith, get-append k a b, eq_iff k j, apart j)),
      )

module _ {ℓ κ} {V : Type ℓ} {W : Type κ} where
  pub Apart-sym : (a : Dict V) (b : Dict W) → Apart a b → Apart b a
  Apart-sym a b apart k m = elim (Option-cases (get k a)) [
    | inl e ↦ e
    | inr (v, e) ↦ ground (arith, apart k (ground arith))
  ]

module _ {ℓ κ} {V : Type ℓ} (P : String × V → Type κ) where
  pub All-put : (k : String) (v : V) (d : Dict V) → P (k, v) → All P d → All P (put k v d)
  All-put k v [] p h = (p, tt)
  All-put k v ((j, w) ∷ d) p (q, h) = elim (Bool-cases (j == k)) [
    | inl e ↦ rw (e) (subst (λ i. P (i, v)) (sym ((eq_iff j k).0 e)) p, h)
    | inr e ↦ rw (e) (q, All-put k v d p h)
  ]

  -- What `d.get(k)` finds is one of the entries.
  pub All-get : (k : String) (v : V) (d : Dict V) → All P d → get k d ≡ some v → P (k, v)
  All-get k v [] h found = cc
  All-get k v ((j, w) ∷ d) (p, h) found = elim (Bool-cases (j == k)) [
    | inl e ↦
        let same : w ≡ v = ground arith in
        subst (λ x. P (k, x)) same (subst (λ i. P (i, w)) ((eq_iff j k).0 e) p)
    | inr e ↦ All-get k v d h (ground arith)
  ]
