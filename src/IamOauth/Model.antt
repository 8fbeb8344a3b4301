-- ===== src/IamOauth/Model.antt =====
-- apps/iam_oauth/models.py: the tables of the authorization server, as lists of rows, and what the
-- source uses of Django's queries on them. The queries see every row, as they do in a request without a
-- bearer token; Grants scopes those for clients. A UUID is a text; a moment is a number of seconds.
pub mod Rows
use drf_enterprise_informati.Prelude.{
  ℕ, String, Bool, true, false, Option, none, some, List, [], ◌∷◌, ◌==◌, if◌then◌else◌, Result, ok,
  err,
}

pub record Client : Type 0 where
  pub pk : String
  pub tenant_id : String
  pub client_id : String
  pub client_secret : Option String
  pub redirect_uris : String
  pub grant_types : String
  pub response_types : String
  pub scope : String
  pub is_confidential : Bool
  pub is_active : Bool

pub record AuthorizationCode : Type 0 where
  pub pk : String
  pub client : String
  pub tenant_id : String
  pub code : String
  pub redirect_uri : String
  pub scope : String
  pub code_challenge : Option String
  pub code_challenge_method : Option String
  pub user_id : Option String
  pub expires_at : ℕ
  pub is_consumed : Bool
  pub consumed_at : Option ℕ

pub record RefreshToken : Type 0 where
  pub pk : String
  pub client : String
  pub tenant_id : String
  pub user_id : String
  pub token : String
  pub scope : String
  pub expires_at : ℕ
  pub is_revoked : Bool
  pub revoked_at : Option ℕ
  pub replaced_by : Option String

-- The columns of `UserEvent` that this app writes.
pub record Event : Type 0 where
  pub name : String
  pub tenant_id : String
  pub client_id : String
  pub user_id : String
  pub detail : String

pub record Db : Type 0 where
  pub clients : List Client
  pub codes : List AuthorizationCode
  pub tokens : List RefreshToken
  pub events : List Event

-- What the functions of the app raise. `multiple_objects` is Django's error for a `get` that
-- matches several rows, and `invalid_uuid` the one for a value that a UUID column refuses.
pub data Error : Type 0 where
  does_not_exist multiple_objects invalid_uuid : Error
  pkce_required pkce_mismatch : Error
  already_consumed code_expired client_mismatch redirect_mismatch : Error
  invalid_refresh_token refresh_revoked refresh_expired scope_exceeded : Error
  invalid_client_id invalid_client_secret not_confidential unsupported_grant : Error
  response_type_unsupported invalid_redirect_uri invalid_challenge_method : Error
  invalid_code client_id_mismatch invalid_field : Error

module _ {A : Type 0} where
  -- `Model.objects.filter(column=value)`
  pub filter_by : (A → String) → String → List A → List A
  filter_by column value [] = []
  filter_by column value (r ∷ rows) =
      let rest = filter_by column value rows in if column r == value then r ∷ rest else rest

  -- `Model.objects.get(…)` on what the filter leaves
  pub the_only : List A → Result Error A
  the_only [] = err does_not_exist
  the_only (r ∷ []) = ok r
  the_only (r ∷ s ∷ rest) = err multiple_objects

  -- `row.save(update_fields=…)`: the row with this primary key takes the new values.
  pub save_row : (A → String) → A → List A → List A
  save_row pk row [] = []
  save_row pk row (r ∷ rows) = (if pk r == pk row then row else r) ∷ save_row pk row rows

unfoldable pub get_code : String → List AuthorizationCode → Result Error AuthorizationCode
unfolding filter_by the_only
get_code code rows = the_only (filter_by (λ r. r.code) code rows)

unfoldable pub get_token : String → List RefreshToken → Result Error RefreshToken
unfolding filter_by the_only
get_token token rows = the_only (filter_by (λ r. r.token) token rows)

unfoldable pub save_code : AuthorizationCode → List AuthorizationCode → List AuthorizationCode
unfolding save_row
save_code row rows = save_row (λ r. r.pk) row rows

unfoldable pub save_token : RefreshToken → List RefreshToken → List RefreshToken
unfolding save_row
save_token row rows = save_row (λ r. r.pk) row rows
