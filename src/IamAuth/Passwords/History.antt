-- ===== src/IamAuth/Passwords/History.antt =====
-- A password that was replaced cannot come back soon.
use mathlib.Core.Path.{subst}
use drf_enterprise_informati.Prelude.{
  ℕ, zero, suc, ◌+◌, ◌-◌, ◌≤◌, String, ◌≡◌, ◌≢◌, refl, Bool, true, false, not, Option, List, [],
  ◌∷◌, ◌==◌, arith, any_of, take, length, Bool-cases, inl, inr, Dict, Result, ok, err, raise_if-ok,
  raise_if_inv, >>=-eq-ok,
}
use drf_enterprise_informati.Core.Cache.{Cache}
use drf_enterprise_informati.Core.Security.{Setting, validate_password_complexity}
use drf_enterprise_informati.IamAuth.Lockout.{Config}
use drf_enterprise_informati.IamAuth.Passwords.{
  Hasher, PasswordError, Account, ChangeRequest, password_history_limit, is_reused, config_of,
  validate, save, answer, change, change_all, incorrect, mismatch, reused, judged,
}

module _ (p : String → Bool) where
  take_more :
      (n : ℕ) (l : List String) → any_of p (take n l) ≡ true → any_of p (take (suc n) l) ≡ true
  take_more zero l h = cc
  take_more (suc n) [] h = cc
  take_more (suc n) (x ∷ l) h = elim (Bool-cases (p x)) [
    | inl e ↦ ground (arith, e)
    | inr e ↦ ground (arith, e, take_more n l)
  ]

  take_upto :
      (k n : ℕ) (l : List String) → any_of p (take n l) ≡ true → any_of p (take (k + n) l) ≡ true
  take_upto zero n l h = subst (λ j. any_of p (take j l) ≡ true) (omega arith) h
  take_upto (suc k) n l h =
      subst (λ j. any_of p (take j l) ≡ true) {x = suc (k + n)} (omega arith)
        (take_more (k + n) l (take_upto k n l h))

module _ (hasher : Hasher) (loads : String → Option (Dict Setting)) (cache : Cache) (cfg : Config)
    (tenants : List String) where
  open cache use {State}

  -- One request adds at most one entry before the others.
  answer_keeps :
      (p : String → Bool) (n : ℕ) (request : ChangeRequest) (account : Account State)
      (r : Result PasswordError (Unit {0}))
      → any_of p (take n account.history) ≡ true
      → any_of p (take (suc n) (answer hasher loads cache cfg tenants request account r).1.history)
        ≡ true
  unfolding answer save
  answer_keeps p n request account (err e) h = take_more p n account.history h
  answer_keeps p n request account (ok _) h = ground (arith, h)

  change_all_keeps :
      (p : String → Bool) (n : ℕ) (requests : List ChangeRequest) (account : Account State)
      → any_of p (take n account.history) ≡ true
      → any_of p (
          take
            (length requests + n)
            (change_all hasher loads cache cfg tenants requests account).history)
        ≡ true
  unfolding change_all change
  change_all_keeps p n [] account h =
      subst (λ k. any_of p (take k account.history) ≡ true) (omega arith) h
  change_all_keeps p n (request ∷ rest) account h =
      let next =
        answer hasher loads cache cfg tenants request account
          (validate hasher loads request account) in
      let more = answer_keeps p n request account (validate hasher loads request account) h in
      let all = change_all_keeps p (suc n) rest next.1 more in
      subst
        (λ k.
          any_of p (take k (change_all hasher loads cache cfg tenants rest next.1).history) ≡ true)
        (omega arith) all

  -- What a change that is accepted has checked.
  accepted :
      (request : ChangeRequest) (account : Account State)
      → validate hasher loads request account ≡ ok tt
      → is_reused hasher loads request.new_password account.history ≡ false
  unfolding validate
  accepted request account h =
      let (first, h1) =
        raise_if-ok (not (hasher.check request.old_password account.password)) incorrect _ h in
      let (second, h2) =
        raise_if-ok (not (request.new_password == request.new_password_confirmation)) mismatch _
          h1 in
      let (config, read, h3) = >>=-eq-ok (config_of hasher loads request) _ h2 in
      let (done, complex, last) =
        >>=-eq-ok (judged (validate_password_complexity request.new_password config)) _ h3 in
      raise_if_inv (is_reused hasher loads request.new_password account.history) reused last

  answer_ok :
      (request : ChangeRequest) (account : Account State) (r : Result PasswordError (Unit {0}))
      → (answer hasher loads cache cfg tenants request account r).0 ≡ ok tt
      → r ≡ ok tt
  unfolding answer
  answer_ok request account (err e) h = cc
  answer_ok request account (ok _) h = refl

  -- An accepted change puts the hash that it replaces first.
  replaced_first :
      (p : String → Bool) (request : ChangeRequest) (account : Account State)
      (r : Result PasswordError (Unit {0}))
      → r ≡ ok tt
      → p account.password ≡ true
      → any_of p (take 1 (answer hasher loads cache cfg tenants request account r).1.history) ≡ true
  unfolding answer save
  replaced_first p request account (err e) h holds = cc
  replaced_first p request account (ok _) h holds = ground (arith, holds)

  -- After an accepted change and any run of at most four further requests of the user, accepted or
  -- not, a request is refused if its new password matches the hash that the first change replaced.
  pub replaced_refused :
      (first last : ChangeRequest) (between : List ChangeRequest) (account : Account State)
      → (change hasher loads cache cfg tenants first account).0 ≡ ok tt
      → length between ≤ 4
      → hasher.check last.new_password account.password ≡ true
      → (change hasher loads cache cfg tenants last
          (change_all hasher loads cache cfg tenants (first ∷ between) account)).0
        ≢ ok tt
  unfolding change_all change
  replaced_refused first last between account done few match again =
      let p : String → Bool = λ hash. hasher.check last.new_password hash in
      let valid = validate hasher loads first account in
      let next = (answer hasher loads cache cfg tenants first account valid).1 in
      let final = change_all hasher loads cache cfg tenants between next in
      let one = replaced_first p first account valid (answer_ok first account valid done) match in
      let kept = change_all_keeps p 1 between next one in
      let in_five : any_of p (take password_history_limit final.history) ≡ true =
        subst (λ n. any_of p (take n final.history) ≡ true) {y = password_history_limit}
          (omega (arith, few))
          (take_upto p (4 - length between) (length between + 1) final.history kept) in
      let fresh =
        accepted last final (answer_ok last final (validate hasher loads last final) again) in
      cc (in_five, fresh)
