-- ===== src/Prelude/Tests.antt =====
-- Boolean tests and Python's truth of a value.
use Prim.Native.Nat.{ℕ, compare, Ordering}
use Prim.Native.String.{String}
use Prim.Native.Char.{Char}
use text.Mathlib.TextLemmas.{nil≢cons}
use mathlib.Core.Path.{sym, ◌≡◌, refl}
use mathlib.Core.Logic.{◌↔◌, ◌≢◌, ◌⊎◌, inl, inr}
use mathlib.Core.Bool.{Bool, true, false}
use mathlib.Core.Option.{Option, none, some}

abbrev pub ltb : ℕ → ℕ → Bool
ltb a b = elim (compare a b) [ Ordering.lt ↦ true | _ ↦ false ]

abbrev pub leb : ℕ → ℕ → Bool
leb a b = elim (compare a b) [ Ordering.gt ↦ false | _ ↦ true ]

abbrev pub nat_eq : ℕ → ℕ → Bool
nat_eq a b = elim (compare a b) [ Ordering.eq ↦ true | _ ↦ false ]

infix 1 if◌then◌else◌
abbrev pub if◌then◌else◌ {ℓ} : {A : Type ℓ} → Bool → A → A → A
if true then x else y = x
if false then x else y = y

pub Bool-cases : (b : Bool) → (b ≡ true) ⊎ (b ≡ false)
Bool-cases true = inl refl
Bool-cases false = inr refl

-- A string is true when it is not empty.
abbrev pub is_set : String → Bool
is_set String.[] = false
is_set (String.◌∷◌ c s) = true

module _ {ℓ} {A : Type ℓ} where
  pub Option-cases : (o : Option A) → (o ≡ none) ⊎ ((a : A) × (o ≡ some a))
  Option-cases none = inl refl
  Option-cases (some a) = inr (a, refl)

  abbrev pub is_some : Option A → Bool
  is_some none = false
  is_some (some a) = true

  -- `settings.get(key, default)`
  abbrev pub or_default : Option A → A → A
  or_default none d = d
  or_default (some a) d = a

-- `s or None`
abbrev pub or_none : String → Option String
or_none String.[] = none
or_none (String.◌∷◌ c s) = some (String.◌∷◌ c s)

-- `o or ""`
abbrev pub or_empty : Option String → String
or_empty none = ""
or_empty (some s) = s

pub or_none-or_empty : (o : Option String) → o ≢ some "" → or_none (or_empty o) ≡ o
or_none-or_empty none h = refl
or_none-or_empty (some String.[]) h = absurd (h refl)
or_none-or_empty (some (String.◌∷◌ c s)) h = refl

nil_ne_cons : (c : Char) (s : String) → ◌≢◌ {A = String} "" (String.◌∷◌ c s)
nil_ne_cons c s e = nil≢cons e

pub is_set_iff : (s : String) → (is_set s ≡ true) ↔ (s ≢ "")
is_set_iff String.[] = (λ h. cc, λ h. absurd (h refl))
is_set_iff (String.◌∷◌ c s) = (λ h e. nil_ne_cons c s (sym e), λ h. refl)

pub is_set_of_ne : (s : String) → s ≢ "" → is_set s ≡ true
is_set_of_ne String.[] h = absurd (h refl)
is_set_of_ne (String.◌∷◌ c s) h = refl
