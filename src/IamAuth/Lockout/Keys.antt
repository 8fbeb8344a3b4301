-- ===== src/IamAuth/Lockout/Keys.antt =====
-- The cache keys of the lockout never collide.
use Prim.Native.Char.{code}
use Prim.Native.String.{◌++◌}
use text.Mathlib.TextLemmas.{append_cancel_left, append_assoc, cons-append, head-eq_of_cons-eq}
use drf_enterprise_informati.Prelude.{String, ◌≡◌, ◌≢◌, arith, ap, sym, ◌∙◌}
use drf_enterprise_informati.IamAuth.Lockout.{attempts_key, locked_key}

pub attempts_key-injective : (a b : String) → attempts_key a ≡ attempts_key b → a ≡ b
unfolding attempts_key
attempts_key-injective a b h = append_cancel_left "auth:lockout:attempts:" a b h

pub locked_key-injective : (a b : String) → locked_key a ≡ locked_key b → a ≡ b
unfolding locked_key
locked_key-injective a b h = append_cancel_left "auth:lockout:locked:" a b h

letters_differ : (a b : String) → "attempts:" ++ a ≢ "locked:" ++ b
letters_differ a b h =
    let e : code "a" ≡ code "l" =
      ap code (
        head-eq_of_cons-eq (sym (cons-append "a" "ttempts:" a) ∙ h ∙ cons-append "l" "ocked:" b)) in
    absurd (omega arith)

pub attempts_key-ne-locked_key : (a b : String) → attempts_key a ≢ locked_key b
unfolding attempts_key locked_key
attempts_key-ne-locked_key a b h = letters_differ a b (
    append_cancel_left "auth:lockout:" _ _ (
      sym (append_assoc "auth:lockout:" "attempts:" a)
      ∙ h
      ∙ append_assoc "auth:lockout:" "locked:" b))
