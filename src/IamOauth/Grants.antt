-- ===== src/IamOauth/Grants.antt =====
-- apps/iam_oauth/serializers.py: what the authorization endpoint and the token endpoint accept. A
-- field that is sent is a text; one that is not sent is `none`, and the empty text in `code_grant`,
-- which starts at `AuthorizationCodeGrantSerializer.validate` and takes a request without a bearer
-- token. The request's tenant and user come from its token, whose tenant is the canonical text of a
-- UUID. Django's URLValidator is a parameter.
pub mod Fields
pub mod Credentials
pub mod Authorizing
pub mod Exchanging
mod Tests
use Prim.Native.Char.{code}
use drf_enterprise_informati.Prelude.{
  ℕ, String, Bool, true, false, not, ◌&&◌, ◌||◌, Option, none, some, List, [], ◌∷◌, ◌==◌,
  if◌then◌else◌, Result, ok, err, ◌>>=◌, ◌>>◌, raise_if, is_set, or_empty, is_empty, contains,
  is_subset, find_first, nat_eq, where_,
}
use drf_enterprise_informati.Core.PyText.{words, split_on, is_space}
use drf_enterprise_informati.IamOauth.Model.{
  Client, AuthorizationCode, Event, Db, Error, does_not_exist, multiple_objects, invalid_client_id,
  invalid_client_secret, not_confidential, unsupported_grant, scope_exceeded,
  response_type_unsupported, invalid_redirect_uri, pkce_required, invalid_challenge_method,
  invalid_code, already_consumed, client_id_mismatch, redirect_mismatch, get_code, invalid_field,
}
use drf_enterprise_informati.IamOauth.Codes.{
  Settings, Outside, Fresh, CodeRequest, Moments, TokenData, generate_authorization_code,
  consume_authorization_code,
}
use drf_enterprise_informati.IamOauth.Refresh.{
  FoundClient, no_client, client, several, find_client, secret_is,
}

left_strip : String → String
left_strip String.[] = String.[]
left_strip (String.◌∷◌ c s) =
    let rest = left_strip s in if is_space (code c) then rest else String.◌∷◌ c s

right_strip : String → String
right_strip String.[] = String.[]
right_strip (String.◌∷◌ c s) =
    let rest = right_strip s in
    if is_space (code c) && not (is_set rest) then String.[] else String.◌∷◌ c rest

strip_all : List String → List String
unfolding left_strip right_strip
strip_all [] = []
strip_all (p ∷ ps) =
    let rest = strip_all ps in
    if is_set (right_strip (left_strip p)) then right_strip (left_strip p) ∷ rest else rest

-- `[x.strip() for x in text.split(",") if x.strip()]`
unfoldable pub comma_list : String → List String
unfolding split_on strip_all
comma_list text = strip_all (split_on b',' text)

active : FoundClient → Result Error Client
active no_client = err invalid_client_id
active (client c) = ok c
active several = err multiple_objects

-- `value.strip()`
pub strip : String → String
unfolding left_strip right_strip
strip text = right_strip (left_strip text)

pub has_nul : String → Bool
has_nul String.[] = false
has_nul (String.◌∷◌ c s) = nat_eq (code c) 0 || has_nul s

-- `CharField()`: the value has to be sent, not blank and without a NUL.
unfoldable pub required_field : Option String → Result Error String
unfolding strip has_nul
required_field none = err invalid_field
required_field (some text) =
    if is_set (strip text)
    then (if has_nul (strip text) then err invalid_field else ok (strip text))
    else err invalid_field

-- `CharField(required=False, allow_blank=True)`, read by `attrs.get(name, "")`
unfoldable pub optional_field : Option String → Result Error String
unfolding strip has_nul
optional_field none = ok ""
optional_field (some text) = if has_nul (strip text) then err invalid_field else ok (strip text)

-- `URLField(required=False, allow_blank=True)`
unfoldable pub url_field : (String → Bool) → Option String → Result Error String
unfolding optional_field
url_field is_url sent = do
  url ← optional_field sent
  raise_if (is_set url && not (is_url url)) invalid_field
  ok url

-- `TenantManager.get_queryset`: the rows of the tenant that the token binds, or every row
unfoldable pub scoped : Option String → List Client → List Client
scoped bound clients =
    if is_set (or_empty bound) then where_ (λ c. c.tenant_id == or_empty bound) clients else clients

-- `OAuth2Client.objects.get(client_id=…, is_active=True)`
unfoldable pub active_client : String → List Client → Result Error Client
unfolding active find_client
active_client client_id clients = active (find_client client_id clients)

-- What a token of the client credentials says.
pub record ClientToken : Type 0 where
  pub sub : String
  pub tenant_id : String
  pub scope : String

abbrev pub asked_scope : Client → String → String
asked_scope c scope = if is_set scope then scope else c.scope

unfoldable pub validate_credentials : List Client → String → String → String → Result Error Client
unfolding active_client comma_list words
validate_credentials clients client_id client_secret scope = do
  c ← active_client client_id clients
  raise_if (not c.is_confidential) not_confidential
  raise_if (not (secret_is c.client_secret client_secret)) invalid_client_secret
  raise_if (not (contains "client_credentials" (comma_list c.grant_types))) unsupported_grant
  raise_if (not (is_subset (words (asked_scope c scope)) (words c.scope))) scope_exceeded
  ok c

-- `issue_client_credentials_token`
unfoldable pub issue_client_credentials_token : Client → String → Db → ClientToken × Db
issue_client_credentials_token c scope db = (
  record { sub = c.client_id; tenant_id = c.tenant_id; scope = scope },
  record db {
    events =
        record {
          name = "token_issued";
          tenant_id = c.tenant_id;
          client_id = c.client_id;
          user_id = "";
          detail = scope;
        }
        ∷ db.events;
  },
)

pub issue_validated : Db → Result Error (Client × String) → Result Error ClientToken × Db
unfolding issue_client_credentials_token
issue_validated db (err e) = (err e, db)
issue_validated db (ok (c, scope)) =
    let (token, after) = issue_client_credentials_token c (asked_scope c scope) db in
    (ok token, after)

-- The fields, and then `validate`: the client and the scope that was sent.
pub validate_grant :
    List Client → Option String → Option String → Option String → Result Error (Client × String)
unfolding validate_credentials required_field optional_field
validate_grant clients client_id client_secret scope = do
  id ← required_field client_id
  secret ← required_field client_secret
  asked ← optional_field scope
  c ← validate_credentials clients id secret asked
  ok (c, asked)

-- `bound` is the tenant of a bearer token, which a request to the token endpoint may carry.
unfoldable pub credentials_grant :
    Option String
    → Option String
    → Option String
    → Option String
    → Db
    → Result Error ClientToken × Db
unfolding issue_validated validate_grant scoped
credentials_grant bound client_id client_secret scope db =
    issue_validated db (validate_grant (scoped bound db.clients) client_id client_secret scope)

-- The parameters of an authorization request as they are sent.
pub record AuthorizationData : Type 0 where
  pub response_type : Option String
  pub client_id : Option String
  pub redirect_uri : Option String
  pub scope : Option String
  pub state : Option String
  pub code_challenge : Option String
  pub code_challenge_method : Option String

-- The same after the validation of the fields.
pub record AuthorizationRequest : Type 0 where
  pub client_id : String
  pub redirect_uri : String
  pub scope : String
  pub code_challenge : String
  pub code_challenge_method : String

abbrev first_of : List String → String
first_of [] = ""
first_of (x ∷ xs) = x

-- `redirect_uri` after the validation
abbrev pub redirect_of : Client → String → String
redirect_of c redirect_uri =
    if is_set redirect_uri then redirect_uri else first_of (comma_list c.redirect_uris)

unfoldable pub validate_authorization : List Client → AuthorizationRequest → Result Error Client
unfolding active_client comma_list
validate_authorization clients a = do
  c ← active_client a.client_id clients
  raise_if
      (not (is_empty (comma_list c.response_types))
        && not (contains "code" (comma_list c.response_types)))
      response_type_unsupported
  raise_if (is_set a.redirect_uri && not (contains a.redirect_uri (comma_list c.redirect_uris)))
      invalid_redirect_uri
  raise_if (not c.is_confidential && not (is_set a.code_challenge)) pkce_required
  raise_if
      (not c.is_confidential
        && not (a.code_challenge_method == "S256" || a.code_challenge_method == "plain"))
      invalid_challenge_method
  ok c

-- The fields of the request. Their errors are answered together, of which one is given here;
-- `validate_client_id` may raise the error that is not answered.
pub validate_fields :
    (String → Bool) → List Client → AuthorizationData → Result Error AuthorizationRequest
unfolding active_client required_field optional_field url_field
validate_fields is_url clients d = do
  client_id ← required_field d.client_id
  found ← active_client client_id clients
  response_type ← required_field d.response_type
  redirect_uri ← url_field is_url d.redirect_uri
  scope ← optional_field d.scope
  state ← optional_field d.state
  code_challenge ← optional_field d.code_challenge
  code_challenge_method ← optional_field d.code_challenge_method
  ok (record {
    client_id = client_id;
    redirect_uri = redirect_uri;
    scope = scope;
    code_challenge = code_challenge;
    code_challenge_method = code_challenge_method;
  })

-- `serializer.is_valid`
pub validate_request :
    (String → Bool) → List Client → AuthorizationData → Result Error (AuthorizationRequest × Client)
unfolding validate_fields validate_authorization
validate_request is_url clients d = do
  a ← validate_fields is_url clients d
  c ← validate_authorization clients a
  ok (a, c)

-- How the authorization endpoint answers.
pub data Authorized : Type 0 where
  redirect : String → AuthorizationCode → Authorized
  tenant_not_resolved : Authorized
  refused : Error → Authorized

module _ (outside : Outside) (settings : Settings) where
  redirected : String → Result Error AuthorizationCode × Db → Authorized × Db
  redirected redirect_uri (err e, db) = (refused e, db)
  redirected redirect_uri (ok row, db) = (redirect redirect_uri row, db)

  issue_code :
      Option String
      → String
      → Fresh
      → ℕ
      → Db
      → Result Error (AuthorizationRequest × Client)
      → Authorized × Db
  unfolding redirected
  issue_code tenant user_id fresh now db (err e) = (refused e, db)
  issue_code tenant user_id fresh now db (ok (a, c)) =
      if is_set (or_empty tenant)
      then redirected (redirect_of c a.redirect_uri) (
          generate_authorization_code outside settings c
            (record {
              tenant_id = or_empty tenant;
              redirect_uri = redirect_of c a.redirect_uri;
              scope = a.scope;
              user_id = user_id;
              code_challenge = a.code_challenge;
              code_challenge_method = a.code_challenge_method;
            })
            fresh now db)
      else (tenant_not_resolved, db)

  -- `AuthorizeView`, whose authentication binds the tenant of the token
  pub authorize :
      (String → Bool)
      → AuthorizationData
      → Option String
      → String
      → Fresh
      → ℕ
      → Db
      → Authorized × Db
  unfolding issue_code validate_request scoped
  authorize is_url d tenant user_id fresh now db =
      issue_code tenant user_id fresh now db (validate_request is_url (scoped tenant db.clients) d)

  -- `auth_code.client`
  abbrev owner_of : AuthorizationCode → List Client → Result Error Client
  owner_of row clients = elim (find_first (λ c. c.pk == row.client) clients) [
    | none ↦ err does_not_exist
    | some c ↦ ok c
  ]

  found_code : Result Error AuthorizationCode → Result Error AuthorizationCode
  found_code (ok row) = ok row
  found_code (err does_not_exist) = err invalid_code
  found_code (err e) = err e

  -- `AuthorizationCodeGrantSerializer.validate`: the code and its client
  unfoldable pub validate_code :
      Db → String → String → String → Result Error (AuthorizationCode × Client)
  unfolding get_code found_code
  validate_code db code client_id redirect_uri = do
    row ← found_code (get_code code db.codes)
    raise_if row.is_consumed already_consumed
    c ← owner_of row db.clients
    raise_if (not (c.client_id == client_id)) client_id_mismatch
    raise_if (is_set redirect_uri && not (redirect_uri == row.redirect_uri)) redirect_mismatch
    ok (row, c)

  consume_validated :
      String
      → String
      → Moments
      → Fresh
      → Db
      → Result Error (AuthorizationCode × Client)
      → Result Error TokenData × Db
  consume_validated redirect_uri verifier t fresh db (err e) = (err e, db)
  consume_validated redirect_uri verifier t fresh db (ok (row, c)) =
      consume_authorization_code outside settings row.code c
        (if is_set redirect_uri then redirect_uri else row.redirect_uri) verifier t fresh db

  pub code_grant :
      String → String → String → String → Moments → Fresh → Db → Result Error TokenData × Db
  unfolding consume_validated validate_code
  code_grant code client_id redirect_uri verifier t fresh db =
      consume_validated redirect_uri verifier t fresh db
        (validate_code db code client_id redirect_uri)
