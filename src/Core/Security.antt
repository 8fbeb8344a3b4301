-- ===== src/Core/Security.antt =====
-- core/utils/security.py: the complexity of a password, on texts of ASCII characters. A `none` is the
-- TypeError of a setting of the wrong type.
pub mod Complexity
use Prim.Native.Char.{code}
use text.Mathlib.Text.{starts_with}
use drf_enterprise_informati.Prelude.{
  ℕ, ◌≤◌, String, Bool, true, false, ◌&&◌, ◌||◌, not, Option, none, some, List, [], ◌∷◌, ◌++◌, leb,
  ltb, nat_eq, length, is_empty, any_of, if◌then◌else◌, Dict, get,
}
use drf_enterprise_informati.Core.PyText.{codes}
use drf_enterprise_informati.Core.PyPath.{lower}

-- A value of the configuration.
pub data Setting : Type 0 where
  number : ℕ → Setting
  flag : Bool → Setting
  words : List String → Setting

pub data Flaw : Type 0 where
  too_short no_uppercase no_lowercase no_digit no_special : Flaw
  forbidden : String → Flaw

-- The truth of `config.get(key, True)`.
abbrev pub is_required : Option Setting → Bool
is_required none = true
is_required (some (number n)) = not (nat_eq n 0)
is_required (some (flag b)) = b
is_required (some (words l)) = not (is_empty l)

-- `config.get("min_length", 8)`; True and False are the numbers 1 and 0
abbrev pub min_length : Option Setting → Option ℕ
min_length none = some 8
min_length (some (number n)) = some n
min_length (some (flag b)) = some (if b then 1 else 0)
min_length (some (words l)) = none

-- `config.get("forbidden_words", [])`
abbrev pub forbidden_words : Option Setting → Option (List String)
forbidden_words none = some []
forbidden_words (some (words l)) = some l
forbidden_words (some _) = none

abbrev pub is_upper : ℕ → Bool
is_upper c = leb b'A' c && leb c b'Z'

abbrev pub is_lower : ℕ → Bool
is_lower c = leb b'a' c && leb c b'z'

abbrev pub is_digit : ℕ → Bool
is_digit c = leb b'0' c && leb c b'9'

abbrev pub is_special : ℕ → Bool
is_special c = any_of (nat_eq c) (codes "!@#$%^&*(),.?\":{}|<>")

-- `word in text`
unfoldable pub occurs : String → String → Bool
occurs word String.[] = starts_with String.[] word
occurs word (String.◌∷◌ c s) =
    let later = occurs word s in if starts_with (String.◌∷◌ c s) word then true else later

-- `if b: errors.append(e)`
abbrev pub flaw_if : Bool → Flaw → List Flaw
flaw_if true e = e ∷ []
flaw_if false e = []

unfoldable pub word_flaws : String → List String → List Flaw
unfolding occurs lower
word_flaws password [] = []
word_flaws password (word ∷ rest) =
    flaw_if (occurs (lower word) (lower password)) (forbidden word) ++ word_flaws password rest

unfoldable pub flaws : String → Dict Setting → ℕ → List String → List Flaw
unfolding word_flaws
flaws password config min banned =
    flaw_if (ltb (length (codes password)) min) too_short
    ++ (flaw_if
          (is_required (get "require_uppercase" config) && not (any_of is_upper (codes password)))
          no_uppercase
        ++ (flaw_if
              (is_required (get "require_lowercase" config)
                && not (any_of is_lower (codes password)))
              no_lowercase
            ++ (flaw_if
                  (is_required (get "require_digits" config)
                    && not (any_of is_digit (codes password)))
                  no_digit
                ++ (flaw_if
                      (is_required (get "require_special" config)
                        && not (any_of is_special (codes password)))
                      no_special
                    ++ word_flaws password banned))))

unfoldable pub with_both :
    String → Dict Setting → Option ℕ → Option (List String) → Option (List Flaw)
unfolding flaws
with_both password config none banned = none
with_both password config (some min) none = none
with_both password config (some min) (some banned) = some (flaws password config min banned)

-- `validate_password_complexity`; the password is valid if there is no flaw
unfoldable pub validate_password_complexity : String → Dict Setting → Option (List Flaw)
unfolding with_both
validate_password_complexity password config =
    with_both password config (min_length (get "min_length" config))
      (forbidden_words (get "forbidden_words" config))
