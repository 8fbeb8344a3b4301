-- ===== src/IamOauth/Codes/Tests.antt =====
-- A code of a public client, exchanged on concrete tables.
use drf_enterprise_informati.Prelude.{
  ℕ, String, ◌≡◌, refl, true, false, none, some, [], ◌∷◌, arith, Result, ok, err, ◌==◌,
}
use drf_enterprise_informati.IamOauth.Model.{
  Client, AuthorizationCode, Db, Error, get_code, already_consumed,
}
use drf_enterprise_informati.IamOauth.Model.Rows.{DistinctCodes}
use drf_enterprise_informati.IamOauth.Codes.{
  Settings, Outside, Fresh, Moments, TokenData, consume_authorization_code, issue_refresh_token,
}
use drf_enterprise_informati.Prelude.{All, ◌≢◌, eq_iff}
use drf_enterprise_informati.IamOauth.Codes.{
  CodeRequest, generate_authorization_code, computed_challenge, method_of,
}
use drf_enterprise_informati.IamOauth.Codes.Issuing.{issued_code_redeemed}
use drf_enterprise_informati.IamOauth.Codes.Consuming.{
  CanConsume, IsGranted, consume_iff, consume_once,
}

abbrev app : Client
app = record {
  pk = "c1";
  tenant_id = "t1";
  client_id = "app";
  client_secret = none;
  redirect_uris = "https://app/cb";
  grant_types = "authorization_code";
  response_types = "code";
  scope = "read write";
  is_confidential = false;
  is_active = true;
}

abbrev code_row : AuthorizationCode
code_row = record {
  pk = "p1";
  client = "c1";
  tenant_id = "t1";
  code = "code1";
  redirect_uri = "https://app/cb";
  scope = "read";
  code_challenge = some "secret";
  code_challenge_method = some "plain";
  user_id = some "u1";
  expires_at = 600;
  is_consumed = false;
  consumed_at = none;
}

abbrev db : Db
db = record { clients = app ∷ []; codes = code_row ∷ []; tokens = []; events = [] }

abbrev outside : Outside
outside = record { s256 = λ verifier. verifier; is_uuid = λ id. id == "u1" }

abbrev defaults : Settings
defaults = record {
  authorization_code_lifetime = none;
  access_token_lifetime_minutes = none;
  refresh_token_lifetime_days = none;
}

abbrev at : ℕ → Moments
at now = record { checking = now; consuming = now; issuing = now }

abbrev fresh : Fresh
fresh = record { pk = "r1"; value = "jti1" }

abbrev exchange : String → Result Error TokenData × Db
exchange verifier =
    consume_authorization_code outside defaults "code1" app "https://app/cb" verifier (at 100) fresh
      db

abbrev granted : TokenData
granted = record {
  user_id = some "u1";
  tenant_id = "t1";
  scope = "read";
  client_id = "app";
  grant_type = "authorization_code";
  refresh_token = record {
    pk = "r1";
    client = "c1";
    tenant_id = "t1";
    user_id = "u1";
    token = "jti1";
    scope = "read";
    expires_at = 604900;
    is_revoked = false;
    revoked_at = none;
    replaced_by = none;
  };
}

exchanged : (exchange "secret").0 ≡ ok granted
unfolding consume_authorization_code issue_refresh_token get_code
exchanged = refl

distinct : DistinctCodes db.codes
distinct = (tt, tt)

stored : get_code "code1" db.codes ≡ ok code_row
unfolding get_code
stored = refl

consume_iff_example :
    ((g : TokenData)
      → (exchange "secret").0 ≡ ok g
      → (c : CanConsume outside defaults "code1" app "https://app/cb" "secret" 100 db) × IsGranted
          outside defaults "code1" app c.row
          (at 100)
          db
          g
          (exchange "secret").1)
    × (CanConsume outside defaults "code1" app "https://app/cb" "secret" 100 db
        → (g : TokenData) × ((exchange "secret").0 ≡ ok g))
consume_iff_example =
    consume_iff outside defaults "code1" app "https://app/cb" "secret" (at 100) fresh db

consume_once_example :
    consume_authorization_code outside defaults "code1" app "" ""
      (at 101)
      fresh
      (exchange "secret").1
    ≡ (err already_consumed, (exchange "secret").1)
consume_once_example =
    consume_once outside defaults "code1" app app "https://app/cb" "secret" "" "" (at 100) (at 101)
      fresh fresh db granted distinct exchanged

abbrev code_request : CodeRequest
code_request = record {
  tenant_id = "t1";
  redirect_uri = "https://app/cb";
  scope = "read";
  user_id = "u1";
  code_challenge = "secret";
  code_challenge_method = "plain";
}

abbrev fresh_code : Fresh
fresh_code = record { pk = "p2"; value = "code2" }

abbrev issued_row : AuthorizationCode
issued_row = record {
  pk = "p2";
  client = "c1";
  tenant_id = "t1";
  code = "code2";
  redirect_uri = "https://app/cb";
  scope = "read";
  code_challenge = some "secret";
  code_challenge_method = some "plain";
  user_id = some "u1";
  expires_at = 650;
  is_consumed = false;
  consumed_at = none;
}

abbrev issue : Result Error AuthorizationCode × Db
issue = generate_authorization_code outside defaults app code_request fresh_code 50 db

issues : issue.0 ≡ ok issued_row
unfolding generate_authorization_code
issues = refl

code_unused : All (λ c. c.code ≢ "code2") db.codes
code_unused = ((λ h. absurd (ground (arith, eq_iff "code1" "code2"))), tt)

fits : computed_challenge outside (method_of (some "plain")) "secret" ≡ "secret"
unfolding computed_challenge
fits = refl

issued_code_redeemed_example :
    (g : TokenData) × ((consume_authorization_code outside defaults "code2" app "https://app/cb"
        "secret"
        (at 100)
        fresh
        issue.1).0
      ≡ ok g)
    × (g.scope ≡ "read")
    × (g.tenant_id ≡ "t1")
    × (g.refresh_token.client ≡ "c1")
issued_code_redeemed_example =
    issued_code_redeemed outside defaults app code_request fresh_code 50 db issued_row "secret"
      (at 100) fresh issues code_unused (omega arith) fits
