-- ===== src/IamOauth/Codes.antt =====
-- apps/iam_oauth/services.py: issuing and consuming an authorization code.
pub mod Consuming
pub mod Issuing
mod Tests
use drf_enterprise_informati.Prelude.{
  ℕ, ◌+◌, ◌*◌, String, Bool, true, false, not, ◌&&◌, Option, none, some, List, [], ◌∷◌, ◌==◌, ltb,
  if◌then◌else◌, Result, ok, err, ◌>>=◌, ◌>>◌, raise_if, is_set, or_empty, or_none, or_default,
}
use drf_enterprise_informati.IamOauth.Model.{
  Client, AuthorizationCode, RefreshToken, Event, Db, Error, does_not_exist, invalid_uuid,
  pkce_required, pkce_mismatch, already_consumed, code_expired, client_mismatch, redirect_mismatch,
  get_code, save_code,
}

-- The overrides in `settings.OAUTH2`, for the settings that are lifetimes.
pub record Settings : Type 0 where
  pub authorization_code_lifetime : Option ℕ
  pub access_token_lifetime_minutes : Option ℕ
  pub refresh_token_lifetime_days : Option ℕ

-- `get_oauth2_setting` at the three keys, in seconds
abbrev pub code_lifetime : Settings → ℕ
code_lifetime s = or_default s.authorization_code_lifetime 600

abbrev pub access_lifetime : Settings → ℕ
access_lifetime s = or_default s.access_token_lifetime_minutes 30 * 60

abbrev pub refresh_lifetime : Settings → ℕ
refresh_lifetime s = or_default s.refresh_token_lifetime_days 7 * 86400

-- `s256` is base64url of SHA-256 without padding, and `is_uuid` what a UUID column accepts.
pub record Outside : Type 0 where
  pub s256 : String → String
  pub is_uuid : String → Bool

-- The values that the call draws: primary key and `uuid4` text of the created row.
pub record Fresh : Type 0 where
  pub pk : String
  pub value : String

-- A text column that may be null is written as it is given.
pub record CodeRequest : Type 0 where
  pub tenant_id : String
  pub redirect_uri : String
  pub scope : String
  pub user_id : String
  pub code_challenge : String
  pub code_challenge_method : String

abbrev event : String → String → Client → String → String → Event
event name tenant_id client user_id detail = record {
  name = name;
  tenant_id = tenant_id;
  client_id = client.client_id;
  user_id = user_id;
  detail = detail;
}

-- When the parts of the call read the clock.
pub record Moments : Type 0 where
  pub checking : ℕ
  pub consuming : ℕ
  pub issuing : ℕ

-- What the call returns.
pub record TokenData : Type 0 where
  pub user_id : Option String
  pub tenant_id : String
  pub scope : String
  pub client_id : String
  pub grant_type : String
  pub refresh_token : RefreshToken

abbrev pub consumed : AuthorizationCode → ℕ → AuthorizationCode
consumed row now = record row { is_consumed = true; consumed_at = some now }

abbrev pub method_of : Option String → String
method_of method = if is_set (or_empty method) then or_empty method else "plain"

module _ (outside : Outside) where
  pub computed_challenge : String → String → String
  computed_challenge method verifier = if method == "S256" then outside.s256 verifier else verifier

  verify_pkce : String → AuthorizationCode → Result Error (Unit {0})
  unfolding computed_challenge
  verify_pkce verifier row =
      raise_if
        (not (
          computed_challenge (method_of row.code_challenge_method) verifier
          == or_empty row.code_challenge))
        pkce_mismatch

  verify_if_given : AuthorizationCode → String → Result Error (Unit {0})
  unfolding verify_pkce
  verify_if_given row verifier =
      if is_set (or_empty row.code_challenge) && is_set verifier
      then verify_pkce verifier row
      else ok tt

  -- The tests of `consume_authorization_code`, in their order.
  check_code : AuthorizationCode → Client → String → String → ℕ → Result Error (Unit {0})
  unfolding verify_if_given
  check_code row client redirect_uri verifier now = do
    raise_if row.is_consumed already_consumed
    raise_if (ltb row.expires_at now) code_expired
    raise_if (not (row.client == client.pk)) client_mismatch
    raise_if (is_set redirect_uri && not (row.redirect_uri == redirect_uri)) redirect_mismatch
    verify_if_given row verifier

module _ (outside : Outside) (settings : Settings) where
  unfoldable pub new_code : Client → CodeRequest → Fresh → ℕ → AuthorizationCode
  new_code client r fresh now = record {
    pk = fresh.pk;
    client = client.pk;
    tenant_id = r.tenant_id;
    code = fresh.value;
    redirect_uri = r.redirect_uri;
    scope = r.scope;
    code_challenge = some r.code_challenge;
    code_challenge_method = some r.code_challenge_method;
    user_id = some r.user_id;
    expires_at = now + code_lifetime settings;
    is_consumed = false;
    consumed_at = none;
  }

  unfoldable pub generate_authorization_code :
      Client → CodeRequest → Fresh → ℕ → Db → Result Error AuthorizationCode × Db
  unfolding new_code
  generate_authorization_code client r fresh now db =
      if not client.is_confidential && not (is_set r.code_challenge)
      then (err pkce_required, db)
      else if outside.is_uuid r.user_id
      then (let row = new_code client r fresh now in
          (
            ok row,
            record db {
              codes = row ∷ db.codes;
              events =
                  event "authorization_code_issued" r.tenant_id client r.user_id r.scope
                  ∷ db.events;
            },
          ))
      else (err invalid_uuid, db)

  unfoldable pub new_refresh_token : Client → String → String → String → Fresh → ℕ → RefreshToken
  new_refresh_token client tenant_id user_id scope fresh now = record {
    pk = fresh.pk;
    client = client.pk;
    tenant_id = tenant_id;
    user_id = user_id;
    token = fresh.value;
    scope = scope;
    expires_at = now + refresh_lifetime settings;
    is_revoked = false;
    revoked_at = none;
    replaced_by = none;
  }

  unfoldable pub issue_refresh_token :
      Client → String → String → String → Fresh → ℕ → Db → Result Error RefreshToken × Db
  unfolding new_refresh_token
  issue_refresh_token client tenant_id user_id scope fresh now db =
      if outside.is_uuid user_id
      then (let row = new_refresh_token client tenant_id user_id scope fresh now in
          (ok row, record db { tokens = row ∷ db.tokens }))
      else (err invalid_uuid, db)

  token_data :
      Client → AuthorizationCode → Result Error RefreshToken × Db → Result Error TokenData × Db
  token_data client row (err e, db) = (err e, db)
  token_data client row (ok refresh, db) = (
    ok (record {
      user_id = or_none (or_empty row.user_id);
      tenant_id = row.tenant_id;
      scope = row.scope;
      client_id = client.client_id;
      grant_type = "authorization_code";
      refresh_token = refresh;
    }),
    db,
  )

  -- What follows the tests: the code is marked, the event is written, the tokens are issued.
  consume_row : Client → AuthorizationCode → Moments → Fresh → Db → Result Error TokenData × Db
  unfolding token_data
  consume_row client row t fresh db = token_data client row (
      issue_refresh_token client row.tenant_id (or_empty row.user_id) row.scope fresh t.issuing
        (record db {
          codes = save_code (consumed row t.consuming) db.codes;
          events =
              event "authorization_code_consumed" row.tenant_id client (or_empty row.user_id) ""
              ∷ db.events;
        }))

  consume_checked :
      Client
      → AuthorizationCode
      → Moments
      → Fresh
      → Db
      → Result Error (Unit {0})
      → Result Error TokenData × Db
  unfolding consume_row
  consume_checked client row t fresh db (err e) = (err e, db)
  consume_checked client row t fresh db (ok _) = consume_row client row t fresh db

  consume_found :
      Client
      → String
      → String
      → Moments
      → Fresh
      → Db
      → Result Error AuthorizationCode
      → Result Error TokenData × Db
  unfolding check_code consume_checked
  consume_found client redirect_uri verifier t fresh db (err e) = (err e, db)
  consume_found client redirect_uri verifier t fresh db (ok row) =
      consume_checked client row t fresh db
        (check_code outside row client redirect_uri verifier t.checking)

  pub consume_authorization_code :
      String → Client → String → String → Moments → Fresh → Db → Result Error TokenData × Db
  unfolding consume_found
  consume_authorization_code code client redirect_uri verifier t fresh db =
      consume_found client redirect_uri verifier t fresh db (get_code code db.codes)
