-- ===== src/IamOauth/Grants/Authorizing.antt =====
-- What the authorization endpoint issues a code for.
use drf_enterprise_informati.Prelude.{
  ok_injective, ap, ◌≢◌, is_set_iff, Bool, ℕ, String, ◌≡◌, refl, sym, true, false, ◌||◌, Option,
  some, List, ◌∷◌, arith, ◌==◌, Result, ok, err, >>=-eq-ok, contains, is_empty, is_set, or_empty,
  Bool-cases, inl, inr,
}
use mathlib.Core.Path.{subst}
use drf_enterprise_informati.IamOauth.Model.{Client, AuthorizationCode, Db, Error}
use drf_enterprise_informati.IamOauth.Codes.{
  Settings, Outside, Fresh, CodeRequest, new_code, generate_authorization_code,
}
use drf_enterprise_informati.IamOauth.Codes.Issuing.{issued_only}
use drf_enterprise_informati.IamOauth.Grants.Fields.{
  IsSent, IsRead, required_field-IsSent, optional_field-IsRead, url_field-IsRead,
  active_client-scoped,
}
use drf_enterprise_informati.IamOauth.Grants.{
  AuthorizationData, required_field, optional_field, url_field, scoped, validate_fields,
  validate_request, AuthorizationRequest, redirect, redirect_of, active_client, comma_list,
  validate_authorization, redirected, issue_code, authorize,
}

-- What a request for a code has to meet, its fields being read.
pub record IsPermitted (clients : List Client) (a : AuthorizationRequest) (c : Client)
    : Type 0 where
  pub found : active_client a.client_id clients ≡ ok c
  pub flow :
      is_empty (comma_list c.response_types) ≡ false
      → contains "code" (comma_list c.response_types) ≡ true
  pub registered :
      is_set a.redirect_uri ≡ true → contains a.redirect_uri (comma_list c.redirect_uris) ≡ true
  pub challenged : c.is_confidential ≡ false → is_set a.code_challenge ≡ true
  pub method :
      c.is_confidential ≡ false
      → (a.code_challenge_method == "S256" || a.code_challenge_method == "plain") ≡ true

validate_authorization-IsPermitted :
    (clients : List Client) (a : AuthorizationRequest) (c : Client)
    → validate_authorization clients a ≡ ok c
    → IsPermitted clients a c
unfolding validate_authorization
validate_authorization-IsPermitted clients a c h =
    let (d, found, h') = >>=-eq-ok (active_client a.client_id clients) _ h in
    let same : d ≡ c = ground arith in
    rw (← same) (record {
      found = found;
      flow = λ s. ground arith;
      registered = λ s. ground arith;
      challenged = λ s. ground arith;
      method = λ s. ground arith;
    })

-- The fields of a request for a code, as they are sent and as they are read.
pub record IsReadAs (is_url : String → Bool) (d : AuthorizationData) (a : AuthorizationRequest)
    : Type 0 where
  pub response_type : (text : String) × IsSent d.response_type text
  pub client_id : IsSent d.client_id a.client_id
  pub redirect_uri : IsRead d.redirect_uri a.redirect_uri
  pub url : a.redirect_uri ≢ "" → is_url a.redirect_uri ≡ true
  pub scope : IsRead d.scope a.scope
  pub code_challenge : IsRead d.code_challenge a.code_challenge
  pub code_challenge_method : IsRead d.code_challenge_method a.code_challenge_method

validate_fields-IsReadAs :
    (is_url : String → Bool) (clients : List Client) (d : AuthorizationData)
    (a : AuthorizationRequest)
    → validate_fields is_url clients d ≡ ok a
    → IsReadAs is_url d a
unfolding validate_fields
validate_fields-IsReadAs is_url clients d a h =
    let (id, e1, h1) = >>=-eq-ok (required_field d.client_id) _ h in
    let (c, e2, h2) = >>=-eq-ok (active_client id clients) _ h1 in
    let (kind, e3, h3) = >>=-eq-ok (required_field d.response_type) _ h2 in
    let (uri, e4, h4) = >>=-eq-ok (url_field is_url d.redirect_uri) _ h3 in
    let (scope, e5, h5) = >>=-eq-ok (optional_field d.scope) _ h4 in
    let (state, e6, h6) = >>=-eq-ok (optional_field d.state) _ h5 in
    let (challenge, e7, h7) = >>=-eq-ok (optional_field d.code_challenge) _ h6 in
    let (method, e8, h8) = >>=-eq-ok (optional_field d.code_challenge_method) _ h7 in
    let (uri_read, is_one) = url_field-IsRead is_url d.redirect_uri uri e4 in
    rw (← ok_injective _ a h8) (record {
      response_type = (kind, required_field-IsSent d.response_type kind e3);
      client_id = required_field-IsSent d.client_id id e1;
      redirect_uri = uri_read;
      url = is_one;
      scope = optional_field-IsRead d.scope scope e5;
      code_challenge = optional_field-IsRead d.code_challenge challenge e7;
      code_challenge_method = optional_field-IsRead d.code_challenge_method method e8;
    })

module _ (outside : Outside) (settings : Settings) (is_url : String → Bool) (d : AuthorizationData)
    (tenant : Option String) (user_id : String) (fresh : Fresh) (now : ℕ) (db : Db) where
  -- The code that is stored for a request.
  pub record IsIssued (a : AuthorizationRequest) (c : Client) (redirect_uri : String)
      (row : AuthorizationCode) (after : Db) : Type 0 where
    pub sent : IsReadAs is_url d a
    pub permitted : IsPermitted (scoped tenant db.clients) a c
    pub of_tenant : or_empty tenant ≢ ""
    pub client_tenant : c.tenant_id ≡ or_empty tenant
    pub client_named : c.client_id ≡ a.client_id
    pub client_live : c.is_active ≡ true
    pub sent_to : redirect_uri ≡ redirect_of c a.redirect_uri
    pub owner : row.client ≡ c.pk
    pub tenant_of : row.tenant_id ≡ or_empty tenant
    pub user_of : row.user_id ≡ some user_id
    pub bound_to : row.redirect_uri ≡ redirect_uri
    pub challenge : row.code_challenge ≡ some a.code_challenge
    pub stored : after.codes ≡ row ∷ db.codes

  redirected_only :
      (u : String) (r : Result Error AuthorizationCode × Db) (redirect_uri : String)
      (row : AuthorizationCode)
      → (redirected outside settings u r).0 ≡ redirect redirect_uri row
      → (redirect_uri ≡ u) × (r.0 ≡ ok row) × ((redirected outside settings u r).1 ≡ r.1)
  unfolding redirected
  redirected_only u (err e, s) redirect_uri row h = absurd (ground arith)
  redirected_only u (ok x, s) redirect_uri row h = (ground arith, ground arith, refl)

  abbrev asked : AuthorizationRequest → Client → CodeRequest
  asked a c = record {
    tenant_id = or_empty tenant;
    redirect_uri = redirect_of c a.redirect_uri;
    scope = a.scope;
    user_id = user_id;
    code_challenge = a.code_challenge;
    code_challenge_method = a.code_challenge_method;
  }

  issue_code-IsIssued :
      (a : AuthorizationRequest) (c : Client) (redirect_uri : String) (row : AuthorizationCode)
      → IsReadAs is_url d a
      → IsPermitted (scoped tenant db.clients) a c
      → (issue_code outside settings tenant user_id fresh now db (ok (a, c))).0
        ≡ redirect redirect_uri row
      → IsIssued a c redirect_uri row
          (issue_code outside settings tenant user_id fresh now db (ok (a, c))).1
  unfolding issue_code new_code
  issue_code-IsIssued a c redirect_uri row sent permitted h =
      elim (Bool-cases (is_set (or_empty tenant))) [
        | inr e ↦ absurd (ground arith)
        | inl e ↦
            (let made = generate_authorization_code outside settings c (asked a c) fresh now db in
              let (uri, ok_row, rest) =
                redirected_only (redirect_of c a.redirect_uri) made redirect_uri row (rw e at h) in
              let (user, row_is, codes) =
                issued_only outside settings c (asked a c) fresh now db row ok_row in
              let given = (is_set_iff (or_empty tenant)).0 e in
              let (named, live, own) =
                active_client-scoped a.client_id tenant db.clients c permitted.found in
              rw e (record {
                sent = sent;
                permitted = permitted;
                of_tenant = given;
                client_tenant = own given;
                client_named = named;
                client_live = live;
                sent_to = uri;
                owner = rw row_is refl;
                tenant_of = rw row_is refl;
                user_of = rw row_is refl;
                bound_to = rw row_is (sym uri);
                challenge = rw row_is refl;
                stored = rw rest codes;
              }))
      ]

  -- The authorization endpoint issues a code only to the one active client of the token's tenant
  -- with the id that was sent, if it supports the flow; a redirect URI that is sent is one of the
  -- client's, and else the client's first is used; a public client has sent a challenge with one of
  -- the two methods; and the token names a tenant. The stored code is bound to that client, tenant,
  -- user, URI and challenge. Every field is read without the white space around it.
  pub authorize_only :
      (redirect_uri : String) (row : AuthorizationCode)
      → (authorize outside settings is_url d tenant user_id fresh now db).0
        ≡ redirect redirect_uri row
      → (a : AuthorizationRequest) × (c : Client) × IsIssued a c redirect_uri row
          (authorize outside settings is_url d tenant user_id fresh now db).1
  unfolding authorize issue_code validate_request
  authorize_only redirect_uri row h =
      go (validate_request is_url (scoped tenant db.clients) d) refl h
    where
      go :
          (r : Result Error (AuthorizationRequest × Client))
          → validate_request is_url (scoped tenant db.clients) d ≡ r
          → (issue_code outside settings tenant user_id fresh now db r).0
            ≡ redirect redirect_uri row
          → (a : AuthorizationRequest) × (c : Client) × IsIssued a c redirect_uri row
              (issue_code outside settings tenant user_id fresh now db r).1
      go (err e) v g = absurd (ground arith)
      go (ok (a, c)) v g =
          let clients = scoped tenant db.clients in
          let (b, read, v') = >>=-eq-ok (validate_fields is_url clients d) _ v in
          let (x, valid, v'') = >>=-eq-ok (validate_authorization clients b) _ v' in
          let pair : (b, x) ≡ (a, c) = ok_injective _ _ v'' in
          let same : b ≡ a = ap (λ (p : AuthorizationRequest × Client). p.0) pair in
          (
            a,
            c,
            issue_code-IsIssued a c redirect_uri row
                (rw (← same) (validate_fields-IsReadAs is_url clients d b read))
                (subst (λ (p : AuthorizationRequest × Client). IsPermitted clients p.0 p.1) pair
                  (validate_authorization-IsPermitted clients b x valid))
                g,
          )
