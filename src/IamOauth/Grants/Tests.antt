-- ===== src/IamOauth/Grants/Tests.antt =====
-- The grants on concrete tables.
use drf_enterprise_informati.Prelude.{
  ℕ, ◌≡◌, ◌↔◌, refl, true, false, none, some, [], ◌∷◌, arith, ◌==◌, ok, err, String, Bool,
}
use text.Mathlib.Text.{starts_with}
use drf_enterprise_informati.Core.PyText.{words}
use drf_enterprise_informati.IamOauth.Model.{
  Client, AuthorizationCode, Db, get_code, invalid_field, invalid_client_id,
}
use drf_enterprise_informati.IamOauth.Codes.{
  Settings, Outside, Fresh, Moments, TokenData, generate_authorization_code,
}
use drf_enterprise_informati.IamOauth.Grants.{
  ClientToken, asked_scope, comma_list, credentials_grant, AuthorizationData, AuthorizationRequest,
  redirect, authorize, code_grant,
}
use drf_enterprise_informati.IamOauth.Grants.Credentials.{IsEntitled, credentials_grant_iff}
use drf_enterprise_informati.IamOauth.Grants.Authorizing.{IsIssued, authorize_only}
use drf_enterprise_informati.IamOauth.Grants.Exchanging.{code_grant_unauthenticated}

abbrev service : Client
service = record {
  pk = "c1";
  tenant_id = "t1";
  client_id = "app";
  client_secret = some "s3cret";
  redirect_uris = "https://app/cb, https://app/b";
  grant_types = "authorization_code, client_credentials";
  response_types = "code";
  scope = "read write";
  is_confidential = true;
  is_active = true;
}

abbrev code_row : AuthorizationCode
code_row = record {
  pk = "p1";
  client = "c1";
  tenant_id = "t1";
  code = "code1";
  redirect_uri = "https://app/cb";
  scope = "read";
  code_challenge = some "";
  code_challenge_method = some "";
  user_id = some "u1";
  expires_at = 600;
  is_consumed = false;
  consumed_at = none;
}

abbrev db : Db
db = record { clients = service ∷ []; codes = code_row ∷ []; tokens = []; events = [] }

abbrev outside : Outside
outside = record { s256 = λ verifier. verifier; is_uuid = λ id. id == "u1" }

abbrev defaults : Settings
defaults = record {
  authorization_code_lifetime = none;
  access_token_lifetime_minutes = none;
  refresh_token_lifetime_days = none;
}

abbrev fresh : Fresh
fresh = record { pk = "p2"; value = "code2" }

abbrev at : ℕ → Moments
at now = record { checking = now; consuming = now; issuing = now }

lists_uris : comma_list service.redirect_uris ≡ "https://app/cb" ∷ "https://app/b" ∷ []
unfolding comma_list
lists_uris = refl

grants_credentials :
    (credentials_grant none (some " app ") (some "s3cret") none db).0
    ≡ ok (record { sub = "app"; tenant_id = "t1"; scope = "read write" })
unfolding credentials_grant comma_list words
grants_credentials = refl

abbrev service_token : ClientToken
service_token = record { sub = "app"; tenant_id = "t1"; scope = "read" }

-- A client with an empty stored secret gets no token: the field may not be blank.
refuses_blank : (credentials_grant none (some "app") (some " ") none db).0 ≡ err invalid_field
unfolding credentials_grant
refuses_blank = refl

refuses_other_tenant :
    (credentials_grant (some "t2") (some "app") (some "s3cret") none db).0 ≡ err invalid_client_id
unfolding credentials_grant
refuses_other_tenant = refl

credentials_grant_iff_example :
    ((credentials_grant (some "t1") (some "app") (some "s3cret") (some "read") db).0
      ≡ ok service_token)
    ↔ ((c : Client) × (asked : String) × IsEntitled
          (some "t1")
          (some "app")
          (some "s3cret")
          (some "read")
          db
          c
          asked
        × (service_token
            ≡ record { sub = c.client_id; tenant_id = c.tenant_id; scope = asked_scope c asked }))
credentials_grant_iff_example =
    credentials_grant_iff (some "t1") (some "app") (some "s3cret") (some "read") db service_token

abbrev request : AuthorizationData
request = record {
  response_type = some "code";
  client_id = some "app";
  redirect_uri = some "";
  scope = some "read";
  state = none;
  code_challenge = none;
  code_challenge_method = none;
}

abbrev is_url : String → Bool
is_url url = starts_with url "https://"

abbrev row : AuthorizationCode
row = record {
  pk = "p2";
  client = "c1";
  tenant_id = "t1";
  code = "code2";
  redirect_uri = "https://app/cb";
  scope = "read";
  code_challenge = some "";
  code_challenge_method = some "";
  user_id = some "u1";
  expires_at = 610;
  is_consumed = false;
  consumed_at = none;
}

authorizes :
    (authorize outside defaults is_url request (some "t1") "u1" fresh 10 db).0
    ≡ redirect "https://app/cb" row
unfolding authorize generate_authorization_code comma_list
authorizes = refl

authorize_only_example :
    (a : AuthorizationRequest) × (c : Client) × IsIssued outside defaults is_url request
      (some "t1")
      "u1"
      fresh
      10
      db
      a
      c
      "https://app/cb"
      row
      (authorize outside defaults is_url request (some "t1") "u1" fresh 10 db).1
authorize_only_example =
    authorize_only outside defaults is_url request (some "t1") "u1" fresh 10 db "https://app/cb" row
      authorizes

stored : get_code "code1" db.codes ≡ ok code_row
unfolding get_code
stored = refl

code_grant_unauthenticated_example :
    (granted : TokenData) × ((code_grant outside defaults "code1" "app" "" "" (at 100) fresh db).0
      ≡ ok granted)
code_grant_unauthenticated_example =
    code_grant_unauthenticated outside defaults "code1" (at 100) fresh db code_row service stored
      refl (omega arith) refl refl refl
