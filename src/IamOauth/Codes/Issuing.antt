-- ===== src/IamOauth/Codes/Issuing.antt =====
-- A code from its issue to its exchange.
use drf_enterprise_informati.Prelude.{
  ok_injective, ℕ, ◌+◌, ◌≤◌, String, ◌≡◌, ◌≢◌, refl, sym, ap, ◌∙◌, true, not, ◌&&◌, some, ◌∷◌,
  arith, Result, ok, Bool-cases, inl, inr, is_set, All,
}
use drf_enterprise_informati.IamOauth.Model.{Client, AuthorizationCode, Db, Error, get_code}
use drf_enterprise_informati.IamOauth.Model.Rows.{get_code-fresh}
use drf_enterprise_informati.IamOauth.Codes.{
  Settings, Outside, Fresh, CodeRequest, Moments, TokenData, code_lifetime, computed_challenge,
  method_of, new_code, generate_authorization_code, consume_authorization_code,
}
use drf_enterprise_informati.IamOauth.Codes.Consuming.{CanConsume, consume_iff}

module _ (outside : Outside) (settings : Settings) (client : Client) (r : CodeRequest)
    (fresh : Fresh) (now : ℕ) (db : Db) where
  abbrev issued : Result Error AuthorizationCode × Db
  issued = generate_authorization_code outside settings client r fresh now db

  pub issued_only :
      (row : AuthorizationCode)
      → issued.0 ≡ ok row
      → (outside.is_uuid r.user_id ≡ true)
        × (row ≡ new_code outside settings client r fresh now)
        × (issued.1.codes ≡ row ∷ db.codes)
  unfolding generate_authorization_code
  issued_only row h =
      elim (Bool-cases (not client.is_confidential && not (is_set r.code_challenge))) [
        | inl e ↦ absurd (ground arith)
        | inr e ↦ elim (Bool-cases (outside.is_uuid r.user_id)) [
          | inl u ↦
              (let made : issued.0 ≡ ok (new_code outside settings client r fresh now) =
                  rw (e, u) refl in
                let rows : issued.1.codes
                    ≡ new_code outside settings client r fresh now ∷ db.codes =
                  rw (e, u) refl in
                let same : row ≡ new_code outside settings client r fresh now =
                  ok_injective row (new_code outside settings client r fresh now) (sym h ∙ made) in
                (u, same, rows ∙ ap (λ x. x ∷ db.codes) (sym same)))
          | inr u ↦ absurd (ground arith)
        ]
      ]

  -- A code that was issued is exchanged by its client, within its lifetime, with the redirect URI
  -- that it was issued for and a verifier that fits its challenge; what is granted has the scope and
  -- the tenant of the request, and the new refresh token is the client's. The code that is drawn is in no older row.
  pub issued_code_redeemed :
      (row : AuthorizationCode) (verifier : String) (t : Moments) (fresh' : Fresh)
      → issued.0 ≡ ok row
      → All (λ c. c.code ≢ fresh.value) db.codes
      → t.checking ≤ now + code_lifetime settings
      → computed_challenge outside (method_of (some r.code_challenge_method)) verifier
        ≡ r.code_challenge
      → (granted : TokenData) × ((consume_authorization_code outside settings row.code client
            r.redirect_uri verifier t fresh' issued.1).0
          ≡ ok granted)
        × (granted.scope ≡ r.scope)
        × (granted.tenant_id ≡ r.tenant_id)
        × (granted.refresh_token.client ≡ client.pk)
  unfolding new_code
  issued_code_redeemed row verifier t fresh' h unused in_time fits =
      let (user, same, rows) = issued_only row h in
      let found : get_code row.code issued.1.codes ≡ ok row =
        rw rows (get_code-fresh row db.codes (rw same unused)) in
      let can : CanConsume outside settings row.code client r.redirect_uri verifier t.checking
          issued.1 =
        record {
          row = row;
          found = found;
          user = rw same user;
          acceptable = rw same (record {
            unused = refl;
            fresh = in_time;
            owned = refl;
            redirect = λ _. refl;
            proof = λ _ _. fits;
          });
        } in
      let both =
        consume_iff outside settings row.code client r.redirect_uri verifier t fresh' issued.1 in
      let (granted, e) = both.1 can in
      let (c, g) = both.0 granted e in
      let here : c.row ≡ new_code outside settings client r fresh now =
        ok_injective c.row row (sym c.found ∙ found) ∙ same in
      (
        granted,
        e,
        g.scope ∙ ap (λ (x : AuthorizationCode). x.scope) here,
        g.tenant ∙ ap (λ (x : AuthorizationCode). x.tenant_id) here,
        g.token_client,
      )
