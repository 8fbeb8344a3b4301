-- ===== src/IamOauth/Grants/Credentials.antt =====
-- The grant for a client's own credentials.
use drf_enterprise_informati.Prelude.{
  ok_injective, String, ◌≡◌, ◌↔◌, refl, sym, true, arith, Option, Result, ok, err, >>=-eq-ok,
  contains, is_subset,
}
use mathlib.Core.Path.{subst}
use drf_enterprise_informati.Core.PyText.{words}
use drf_enterprise_informati.IamOauth.Model.{Client, Db, Error}
use drf_enterprise_informati.IamOauth.Refresh.{secret_is}
use drf_enterprise_informati.IamOauth.Grants.{
  ClientToken, asked_scope, active_client, comma_list, validate_credentials, issue_validated,
  issue_client_credentials_token, credentials_grant, required_field, optional_field, scoped,
  validate_grant,
}
use drf_enterprise_informati.IamOauth.Grants.Fields.{
  IsSent, IsRead, required_field-IsSent, IsSent-required_field, optional_field-IsRead,
  IsRead-optional_field,
}

module _ (bound client_id client_secret scope : Option String) (db : Db) where
  -- What entitles a client to a token of its own, for the scope that it asks for.
  pub record IsEntitled (c : Client) (asked : String) : Type 0 where
    pub id : String
    pub id_sent : IsSent client_id id
    pub secret : String
    pub secret_sent : IsSent client_secret secret
    pub scope_read : IsRead scope asked
    pub found : active_client id (scoped bound db.clients) ≡ ok c
    pub confidential : c.is_confidential ≡ true
    pub secret_same : secret_is c.client_secret secret ≡ true
    pub grant : contains "client_credentials" (comma_list c.grant_types) ≡ true
    pub narrower : is_subset (words (asked_scope c asked)) (words c.scope) ≡ true

  abbrev validated : Result Error (Client × String)
  validated = validate_grant (scoped bound db.clients) client_id client_secret scope

  checked_sound :
      (c : Client) (id secret asked : String)
      → IsSent client_id id
      → IsSent client_secret secret
      → IsRead scope asked
      → validate_credentials (scoped bound db.clients) id secret asked ≡ ok c
      → IsEntitled c asked
  unfolding validate_credentials
  checked_sound c id secret asked id_sent secret_sent scope_read h =
      let (d, found, h') = >>=-eq-ok (active_client id (scoped bound db.clients)) _ h in
      let same : d ≡ c = ground arith in
      rw (← same) (record {
        id = id;
        id_sent = id_sent;
        secret = secret;
        secret_sent = secret_sent;
        scope_read = scope_read;
        found = found;
        confidential = ground arith;
        secret_same = ground arith;
        grant = ground arith;
        narrower = ground arith;
      })

  validated_sound : (c : Client) (asked : String) → validated ≡ ok (c, asked) → IsEntitled c asked
  unfolding validate_grant
  validated_sound c asked h =
      let (id, sent, h1) = >>=-eq-ok (required_field client_id) _ h in
      let (secret, sent', h2) = >>=-eq-ok (required_field client_secret) _ h1 in
      let (text, read, h3) = >>=-eq-ok (optional_field scope) _ h2 in
      let (d, valid, h4) =
        >>=-eq-ok (validate_credentials (scoped bound db.clients) id secret text) _ h3 in
      subst (λ (p : Client × String). IsEntitled p.0 p.1) (ok_injective (d, text) (c, asked) h4)
        (checked_sound d id secret text (required_field-IsSent client_id id sent)
          (required_field-IsSent client_secret secret sent') (optional_field-IsRead scope text read)
          valid)

  validated_complete :
      (c : Client) (asked : String) → IsEntitled c asked → validated ≡ ok (c, asked)
  unfolding validate_grant validate_credentials
  validated_complete c asked e =
      rw
        (
          IsSent-required_field client_id e.id e.id_sent,
          IsSent-required_field client_secret e.secret e.secret_sent,
          IsRead-optional_field scope asked e.scope_read,
          e.found,
        )
        (ground (arith, e.confidential, e.secret_same, e.grant, e.narrower))

  -- A client gets a token of its own exactly if the request names it and its secret by texts that
  -- are not blank, it is the one active client with the id, of the tenant of the bearer token if the
  -- request carries one, is confidential, is registered for the grant and asks for scopes of its
  -- own. The token names the client, its tenant, and the scope asked for or else all of the
  -- client's. Every field is read without the white space around it and may not hold a NUL.
  pub credentials_grant_iff :
      (token : ClientToken)
      → ((credentials_grant bound client_id client_secret scope db).0 ≡ ok token) ↔ (
          (c : Client) × (asked : String) × IsEntitled c asked
          × (token
              ≡ record { sub = c.client_id; tenant_id = c.tenant_id; scope = asked_scope c asked }))
  unfolding credentials_grant issue_validated issue_client_credentials_token
  credentials_grant_iff token = (
    λ h. go validated refl h,
    λ (p : (c : Client) × (asked : String) × IsEntitled c asked
          × (token ≡ record {
            sub = c.client_id;
            tenant_id = c.tenant_id;
            scope = asked_scope c asked;
          })).
        let (c, asked, e, same) = p in
        rw (validated_complete c asked e, issue_validated) (rw same refl),
  )
    where
      go :
          (r : Result Error (Client × String))
          → validated ≡ r
          → (issue_validated db r).0 ≡ ok token
          → (c : Client) × (asked : String) × IsEntitled c asked
            × (token ≡ record {
              sub = c.client_id;
              tenant_id = c.tenant_id;
              scope = asked_scope c asked;
            })
      go (err e) v h = absurd (ground arith)
      go (ok (c, asked)) v h = (c, asked, validated_sound c asked v, sym (ok_injective _ token h))
