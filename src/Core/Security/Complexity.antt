-- ===== src/Core/Security/Complexity.antt =====
-- What a password without a flaw is.
use drf_enterprise_informati.Prelude.{
  ℕ, ◌≤◌, String, ◌≡◌, ◌↔◌, refl, ap, Bool, true, false, ◌&&◌, not, some, List, [], ◌∷◌, arith, ltb,
  length, any_of, append_inv, cons_ne, Option-cases, inl, inr, All, Dict, get, some_injective,
}
use drf_enterprise_informati.Core.PyText.{codes}
use drf_enterprise_informati.Core.PyPath.{lower}
use drf_enterprise_informati.Core.Security.{
  Setting, Flaw, too_short, no_uppercase, no_lowercase, no_digit, no_special, forbidden,
  is_required, min_length, forbidden_words, is_upper, is_lower, is_digit, is_special, occurs,
  flaw_if, word_flaws, flaws, with_both, validate_password_complexity,
}

abbrev Absent : String → String → Type 0
Absent password word = occurs (lower word) (lower password) ≡ false

-- The independent description: long enough, with a character of each class that is not switched off,
-- and without a forbidden word.
pub record IsComplex (password : String) (config : Dict Setting) : Type 0 where
  pub min : ℕ
  pub banned : List String
  pub long : (min_length (get "min_length" config) ≡ some min) × (min ≤ length (codes password))
  pub upper :
      is_required (get "require_uppercase" config) ≡ true → any_of is_upper (codes password) ≡ true
  pub lowers :
      is_required (get "require_lowercase" config) ≡ true → any_of is_lower (codes password) ≡ true
  pub digit :
      is_required (get "require_digits" config) ≡ true → any_of is_digit (codes password) ≡ true
  pub special :
      is_required (get "require_special" config) ≡ true → any_of is_special (codes password) ≡ true
  pub clean :
      (forbidden_words (get "forbidden_words" config) ≡ some banned) × All (Absent password) banned

flaw_none : (b : Bool) (e : Flaw) → flaw_if b e ≡ [] → b ≡ false
flaw_none true e h = absurd (cons_ne e [] h)
flaw_none false e h = refl

class_met : (required has : Bool) → (required && not has) ≡ false → required ≡ true → has ≡ true
class_met required has h r = ground arith

class_flaw : (required has : Bool) → (required ≡ true → has ≡ true) → (required && not has) ≡ false
class_flaw true has h = ground (arith, h refl)
class_flaw false has h = refl

word_flaws-Absent :
    (password : String) (banned : List String)
    → word_flaws password banned ≡ []
    → All (Absent password) banned
unfolding word_flaws
word_flaws-Absent password [] h = tt
word_flaws-Absent password (word ∷ rest) h =
    let b = occurs (lower word) (lower password) in
    let (here, later) = append_inv (flaw_if b (forbidden word)) (word_flaws password rest) h in
    (flaw_none b (forbidden word) here, word_flaws-Absent password rest later)

word_flaws_complete :
    (password : String) (banned : List String)
    → All (Absent password) banned
    → word_flaws password banned ≡ []
unfolding word_flaws
word_flaws_complete password [] h = refl
word_flaws_complete password (word ∷ rest) (here, later) =
    ground (arith, here, word_flaws_complete password rest later)

flaws-IsComplex :
    (password : String) (config : Dict Setting) (min : ℕ) (banned : List String)
    → min_length (get "min_length" config) ≡ some min
    → forbidden_words (get "forbidden_words" config) ≡ some banned
    → flaws password config min banned ≡ []
    → IsComplex password config
unfolding flaws
flaws-IsComplex password config min banned some_min some_banned h =
    let cs = codes password in
    let (short, h1) = append_inv (flaw_if (ltb (length cs) min) too_short) _ h in
    let (up, h2) =
      append_inv
        (flaw_if (is_required (get "require_uppercase" config) && not (any_of is_upper cs))
          no_uppercase)
        _ h1 in
    let (low, h3) =
      append_inv
        (flaw_if (is_required (get "require_lowercase" config) && not (any_of is_lower cs))
          no_lowercase)
        _ h2 in
    let (dig, h4) =
      append_inv
        (flaw_if (is_required (get "require_digits" config) && not (any_of is_digit cs)) no_digit) _
        h3 in
    let (spec, h5) =
      append_inv
        (flaw_if (is_required (get "require_special" config) && not (any_of is_special cs))
          no_special)
        _ h4 in
    let long_enough : ltb (length cs) min ≡ false =
      flaw_none (ltb (length cs) min) too_short short in
    record {
      min = min;
      banned = banned;
      long = (some_min, ground arith);
      upper =
          class_met (is_required (get "require_uppercase" config)) (any_of is_upper cs)
            (flaw_none _ no_uppercase up);
      lowers =
          class_met (is_required (get "require_lowercase" config)) (any_of is_lower cs)
            (flaw_none _ no_lowercase low);
      digit =
          class_met (is_required (get "require_digits" config)) (any_of is_digit cs)
            (flaw_none _ no_digit dig);
      special =
          class_met (is_required (get "require_special" config)) (any_of is_special cs)
            (flaw_none _ no_special spec);
      clean = (some_banned, word_flaws-Absent password banned h5);
    }

complex_flaws :
    (password : String) (config : Dict Setting) (c : IsComplex password config)
    → flaws password config c.min c.banned ≡ []
unfolding flaws
complex_flaws password config c =
    let cs = codes password in
    let long_enough : ltb (length cs) c.min ≡ false = (let l = c.long.1 in ground arith) in
    let up =
      class_flaw (is_required (get "require_uppercase" config)) (any_of is_upper cs) c.upper in
    let low =
      class_flaw (is_required (get "require_lowercase" config)) (any_of is_lower cs) c.lowers in
    let dig = class_flaw (is_required (get "require_digits" config)) (any_of is_digit cs) c.digit in
    let spec =
      class_flaw (is_required (get "require_special" config)) (any_of is_special cs) c.special in
    rw (long_enough, up, low, dig, spec) (word_flaws_complete password c.banned c.clean.1)

-- A password is valid exactly if it is as long as the configuration asks, has a character of each
-- class that the configuration does not switch off, and holds no forbidden word, upper and lower case
-- not told apart.
pub complexity_iff :
    (password : String) (config : Dict Setting)
    → (validate_password_complexity password config ≡ some []) ↔ IsComplex password config
unfolding validate_password_complexity with_both
complexity_iff password config =
    let read_min = Option-cases (min_length (get "min_length" config)) in
    let read_words = Option-cases (forbidden_words (get "forbidden_words" config)) in
    (
      λ h. elim read_min [
        | inl e ↦ cc (rw (e) at h)
        | inr (min, e) ↦ elim read_words [
          | inl f ↦ cc (rw (e, f) at h)
          | inr (banned, f) ↦
              flaws-IsComplex password config min banned e f
                (some_injective (flaws password config min banned) [] (rw (e, f) at h))
        ]
      ],
      λ c. rw (c.long.0, c.clean.0) (ap some (complex_flaws password config c)),
    )
