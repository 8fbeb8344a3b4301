-- ===== src/Prelude/Lists.antt =====
-- Lists measured by native numbers, and predicates on them.
use Prim.Native.Nat.{ℕ, zero, suc, ◌+◌, ◌-◌}
use Prim.Native.String.{String}
use mathlib.Core.Path.{◌≡◌, refl, sym, subst}
use mathlib.Core.Logic.{◌≢◌, inl, inr}
use mathlib.Core.Bool.{Bool, true, false, ◌&&◌, ◌||◌}
use mathlib.Core.Option.{Option, none, some}
use mathlib.Core.List.{List, [], ◌∷◌, ◌++◌}
use drf_enterprise_informati.Prelude.Tests.{Bool-cases, if◌then◌else◌}
use native.Mathlib.Omega.{arith}
use text.Mathlib.Text.{◌==◌}
use text.Mathlib.TextEquality.{eq_iff}

module _ {ℓ} {A : Type ℓ} where
  abbrev pub length : List A → ℕ
  length [] = 0
  length (x ∷ xs) = suc (length xs)

  pub length-append : (xs ys : List A) → length (xs ++ ys) ≡ length xs + length ys
  length-append [] ys = omega arith
  length-append (x ∷ xs) ys = omega (arith, length-append xs ys)

  abbrev pub is_empty : List A → Bool
  is_empty [] = true
  is_empty (x ∷ xs) = false

  -- `xs[:n]` and `xs[n:]`
  abbrev pub take : ℕ → List A → List A
  take zero xs = []
  take (suc n) [] = []
  take (suc n) (x ∷ xs) = x ∷ take n xs

  abbrev pub drop : ℕ → List A → List A
  drop zero xs = xs
  drop (suc n) [] = []
  drop (suc n) (x ∷ xs) = drop n xs

  pub length-drop : (n : ℕ) (xs : List A) → length (drop n xs) ≡ length xs - n
  length-drop zero xs = omega arith
  length-drop (suc n) [] = omega arith
  length-drop (suc n) (x ∷ xs) = omega (arith, length-drop n xs)

  -- The elements that pass the test.
  abbrev pub where_ : (A → Bool) → List A → List A
  where_ p [] = []
  where_ p (x ∷ xs) = let rest = where_ p xs in if p x then x ∷ rest else rest

  pub where_true :
      (p : A → Bool) (x : A) (xs : List A) → p x ≡ true → where_ p (x ∷ xs) ≡ x ∷ where_ p xs
  where_true p x xs e = rw (e) refl

  pub where_false :
      (p : A → Bool) (x : A) (xs : List A) → p x ≡ false → where_ p (x ∷ xs) ≡ where_ p xs
  where_false p x xs e = rw (e) refl

  pub is_empty_inv : (xs : List A) → is_empty xs ≡ true → xs ≡ []
  is_empty_inv [] h = refl
  is_empty_inv (x ∷ xs) h = cc

  pub cons_ne : (x : A) (xs : List A) → x ∷ xs ≢ []
  cons_ne x xs h = cc

  pub append_inv : (xs ys : List A) → xs ++ ys ≡ [] → (xs ≡ []) × (ys ≡ [])
  append_inv [] ys h = (refl, h)
  append_inv (x ∷ xs) ys h = absurd (cons_ne x (xs ++ ys) h)

  pub some_injective : (x y : A) → some x ≡ some y → x ≡ y
  some_injective x y h = cc

  -- The first element that passes the test.
  abbrev pub find_first : (A → Bool) → List A → Option A
  find_first p [] = none
  find_first p (x ∷ xs) = elim (p x) [ true ↦ some x | false ↦ find_first p xs ]

  pub find_first_sound :
      (p : A → Bool) (xs : List A) (found : A) → find_first p xs ≡ some found → p found ≡ true
  find_first_sound p [] found h = cc
  find_first_sound p (x ∷ xs) found h = elim (Bool-cases (p x)) [
    | inl e ↦ subst (λ y. p y ≡ true) (some_injective x found (cc (rw (e, find_first) at h))) e
    | inr e ↦ find_first_sound p xs found (cc (rw (e, find_first) at h))
  ]

  abbrev pub any_of : (A → Bool) → List A → Bool
  any_of p [] = false
  any_of p (x ∷ xs) = p x || any_of p xs

  pub find_first_any :
      (p q : A → Bool) (xs : List A) (found : A)
      → find_first p xs ≡ some found
      → q found ≡ true
      → any_of q xs ≡ true
  find_first_any p q [] found h holds = cc
  find_first_any p q (x ∷ xs) found h holds = elim (Bool-cases (p x)) [
    | inl e ↦
        let same : x ≡ found = some_injective x found (cc (rw (e, find_first) at h)) in
        ground (arith, subst (λ y. q y ≡ true) (sym same) holds)
    | inr e ↦ ground (arith, find_first_any p q xs found (cc (rw (e, find_first) at h)) holds)
  ]

  -- A test that some element passes among those that pass another.
  pub any_where :
      (p q : A → Bool) (xs : List A)
      → any_of q (where_ p xs) ≡ true
      → any_of (λ x. q x && p x) xs ≡ true
  any_where p q [] h = h
  any_where p q (x ∷ xs) h = elim (Bool-cases (p x)) [
    | inl e ↦ ground (arith, any_where p q xs)
    | inr e ↦ ground (arith, any_where p q xs)
  ]

  abbrev pub all_of : (A → Bool) → List A → Bool
  all_of p [] = true
  all_of p (x ∷ xs) = p x && all_of p xs

module _ {ℓ κ} {A : Type ℓ} (P : A → Type κ) where
  abbrev pub All : List A → Type κ
  All [] = Unit
  All (x ∷ xs) = P x × All xs

  pub All-append : (xs ys : List A) → All xs → All ys → All (xs ++ ys)
  All-append [] ys hx hy = hy
  All-append (x ∷ xs) ys hx hy = (hx.0, All-append xs ys hx.1 hy)

module _ {ℓ κ μ} {A : Type ℓ} (P : A → Type κ) (Q : A → Type μ) where
  pub All-implies : (xs : List A) → ((x : A) → P x → Q x) → All P xs → All Q xs
  All-implies [] h all = tt
  All-implies (x ∷ xs) h (here, rest) = (h x here, All-implies xs h rest)

module _ {ℓ} {A : Type ℓ} where
  pub where-cong :
      (p q : A → Bool) (xs : List A) → All (λ x. p x ≡ q x) xs → where_ p xs ≡ where_ q xs
  where-cong p q [] h = refl
  where-cong p q (x ∷ xs) (e, h) = ground (arith, e, where-cong p q xs h)

-- `x in xs`
abbrev pub contains : String → List String → Bool
contains x [] = false
contains x (y ∷ ys) = y == x || contains x ys

-- `set(xs).issubset(set(ys))`
abbrev pub is_subset : List String → List String → Bool
is_subset xs ys = all_of (λ x. contains x ys) xs

pub contains-subset :
    (x : String) (xs ys : List String)
    → is_subset xs ys ≡ true
    → contains x xs ≡ true
    → contains x ys ≡ true
contains-subset x [] ys h m = cc
contains-subset x (y ∷ xs) ys h m = ground (arith, eq_iff y x, contains-subset x xs ys)
