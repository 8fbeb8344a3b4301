-- ===== src/IamAuth/Passwords/Tests.antt =====
-- Passwords kept as they are, with the policy's defaults.
use drf_enterprise_informati.Prelude.{
  ℕ, String, ◌≡◌, ◌≢◌, ◌↔◌, refl, Bool, Option, none, some, List, [], ◌∷◌, ◌==◌, arith, ok,
}
use drf_enterprise_informati.Core.Cache.Table.{table}
use drf_enterprise_informati.Core.Security.{flag, validate_password_complexity, no_digit}
use drf_enterprise_informati.Core.Security.Complexity.{IsComplex, complexity_iff}
use drf_enterprise_informati.IamAuth.Lockout.{Config}
use drf_enterprise_informati.IamAuth.Passwords.{
  Hasher, Account, ChangeRequest, validate, change, change_all,
}
use drf_enterprise_informati.IamAuth.Passwords.History.{replaced_refused}

abbrev plain : Hasher
plain = record { check = λ password hash. password == hash; make = λ password. password }

abbrev lockout : Config
lockout = record { max_attempts = some 3; lockout_duration = some 60 }

abbrev account : Account (List (String × (ℕ × Option ℕ)))
account = record {
  email = "a@b";
  password = "First#111";
  history = [];
  password_expires_at = ("t1", "2026-01-01") ∷ [];
  store = [];
}

abbrev to : String → String → ChangeRequest
to old new = record {
  old_password = old;
  new_password = new;
  new_password_confirmation = new;
  tenant_id = some "t1";
  policy = none;
}

-- The setting of the policy is called require_digit and has no effect.
digits_asked :
    validate_password_complexity "Secret###" (("require_digit", flag Bool.false) ∷ [])
    ≡ some (no_digit ∷ [])
unfolding validate_password_complexity
digits_asked = refl

complexity_iff_example :
    (validate_password_complexity "First#111" [] ≡ some []) ↔ IsComplex "First#111" []
complexity_iff_example = complexity_iff "First#111" []

-- The current password is not in the history, so a change to itself is accepted.
same_again : validate plain (λ _. none) (to "First#111" "First#111") account ≡ ok tt
unfolding validate
same_again = refl

changed :
    (change plain (λ _. none) table lockout ("t1" ∷ []) (to "First#111" "Second#22") account).0
    ≡ ok tt
unfolding change
changed = refl

replaced_refused_example :
    (change plain
      (λ _. none)
      table
      lockout
      ("t1" ∷ [])
      (to "Third#333" "First#111")
      (change_all plain
        (λ _. none)
        table
        lockout
        ("t1" ∷ [])
        (to "First#111" "Second#22" ∷ to "Second#22" "Third#333" ∷ [])
        account)).0
    ≢ ok tt
replaced_refused_example =
    replaced_refused plain (λ _. none) table lockout ("t1" ∷ []) (to "First#111" "Second#22")
      (to "Third#333" "First#111") (to "Second#22" "Third#333" ∷ []) account changed (omega arith)
      refl
