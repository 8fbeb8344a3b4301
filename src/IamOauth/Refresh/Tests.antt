-- ===== src/IamOauth/Refresh/Tests.antt =====
-- Rotation and revocation on concrete tables.
use drf_enterprise_informati.Prelude.{
  ℕ, String, ◌≡◌, refl, true, false, Option, none, some, List, [], ◌∷◌, arith, ◌==◌, eq_iff, Result,
  ok, err, if◌then◌else◌,
}
use drf_enterprise_informati.Core.PyText.{words}
use drf_enterprise_informati.IamOauth.Model.{
  Client, RefreshToken, Db, Error, refresh_revoked, get_token, save_token,
}
use drf_enterprise_informati.IamOauth.Model.Rows.{DistinctTokens}
use drf_enterprise_informati.IamOauth.Codes.{Settings, Outside, Fresh, issue_refresh_token}
use drf_enterprise_informati.IamOauth.Refresh.{
  Moments, TokenData, consume_refresh_token, revoke_refresh_token_chain, RevokeRequest, revoke_view,
}
use drf_enterprise_informati.IamOauth.Refresh.Rotating.{
  CanRotate, IsRotated, IsFresh, rotate_iff, rotate_once,
}
use drf_enterprise_informati.IamOauth.Refresh.Scopes.{
  Descends, here, later, rotation, IsNarrower, Descends-IsNarrower,
}
use drf_enterprise_informati.IamOauth.Refresh.Chain.{is_revoked_at, follow}
use drf_enterprise_informati.IamOauth.Refresh.Chain.Order.{Ordered, index, chain_revoked}
use drf_enterprise_informati.IamOauth.Refresh.Invariant.{IsWellFormed, rotation_keeps}
use drf_enterprise_informati.IamOauth.Refresh.Revoking.{revoke_after_rotation}

abbrev app : Client
app = record {
  pk = "c1";
  tenant_id = "t1";
  client_id = "app";
  client_secret = none;
  redirect_uris = "https://app/cb";
  grant_types = "refresh_token";
  response_types = "code";
  scope = "read write";
  is_confidential = false;
  is_active = true;
}

abbrev token_row : String → String → String → RefreshToken
token_row pk value scope = record {
  pk = pk;
  client = "c1";
  tenant_id = "t1";
  user_id = "u1";
  token = value;
  scope = scope;
  expires_at = 604800;
  is_revoked = false;
  revoked_at = none;
  replaced_by = none;
}

abbrev first : RefreshToken
first = token_row "r1" "jti1" "read write"

abbrev db : Db
db = record { clients = app ∷ []; codes = []; tokens = first ∷ []; events = [] }

abbrev outside : Outside
outside = record { s256 = λ verifier. verifier; is_uuid = λ id. id == "u1" }

abbrev defaults : Settings
defaults = record {
  authorization_code_lifetime = none;
  access_token_lifetime_minutes = none;
  refresh_token_lifetime_days = none;
}

abbrev at : ℕ → Moments
at now = record { checking = now; issuing = now; revoking = now }

abbrev fresh : Fresh
fresh = record { pk = "r2"; value = "jti2" }

abbrev rotate_read : Result Error TokenData × Db
rotate_read = consume_refresh_token outside defaults "jti1" app "read" (at 0) fresh db

abbrev granted : TokenData
granted = record {
  user_id = "u1";
  tenant_id = "t1";
  scope = "read";
  client_id = "app";
  grant_type = "refresh_token";
  new_refresh_token = token_row "r2" "jti2" "read";
}

rotated : rotate_read.0 ≡ ok granted
unfolding consume_refresh_token issue_refresh_token get_token words
rotated = refl

distinct : DistinctTokens db.tokens
distinct = (tt, tt)

unused : IsFresh fresh db.tokens
unused = record {
  pk = ((λ h. absurd (ground (arith, eq_iff "r1" "r2"))), tt);
  value = ((λ h. absurd (ground (arith, eq_iff "jti1" "jti2"))), tt);
}

rotate_iff_example :
    ((g : TokenData)
      → rotate_read.0 ≡ ok g
      → (c : CanRotate outside defaults "jti1" app "read" (at 0) fresh db) × IsRotated outside
          defaults "jti1" app "read"
          (at 0)
          fresh
          db
          c.row
          g
          rotate_read.1)
    × (CanRotate outside defaults "jti1" app "read" (at 0) fresh db
        → (g : TokenData) × (rotate_read.0 ≡ ok g))
rotate_iff_example = rotate_iff outside defaults "jti1" app "read" (at 0) fresh db

rotate_once_example :
    consume_refresh_token outside defaults "jti1" app "" (at 1) fresh rotate_read.1
    ≡ (err refresh_revoked, rotate_read.1)
rotate_once_example =
    rotate_once outside defaults "jti1" app app "read" "" (at 0) (at 1) fresh fresh db granted
      distinct unused rotated

abbrev chain : List RefreshToken
chain =
    token_row "r2" "jti2" "read"
    ∷ (record first { is_revoked = true; revoked_at = some 0; replaced_by = some "r2" })
    ∷ []

abbrev chain_db : Db
chain_db = record db { tokens = chain }

abbrev revoke_request : RevokeRequest
revoke_request = record { token = "jwt1"; client_id = "app"; client_secret = "" }

abbrev decode : String → Option String
decode jwt = if jwt == "jwt1" then some "jti1" else none

revoke_after_rotation_example :
    (revoke_view 5 decode revoke_request rotate_read.1).1 ≡ rotate_read.1
revoke_after_rotation_example =
    revoke_after_rotation outside defaults "jti1" app "read" (at 0) fresh db granted 5 decode
      revoke_request distinct unused rotated refl

chain-Ordered : Ordered chain
unfolding index
chain-Ordered = record {
  nearer = λ k q h. ground (arith, eq_iff "r2" k, eq_iff "r1" k, eq_iff "r2" q);
}

reaches : follow 1 "r1" chain ≡ some "r2"
unfolding follow
reaches = refl

chain_revoked_example :
    is_revoked_at "r2"
      (revoke_refresh_token_chain 9
        (record first { is_revoked = true; revoked_at = some 0; replaced_by = some "r2" })
        chain_db).tokens
    ≡ true
chain_revoked_example =
    chain_revoked 9 1
      (record first { is_revoked = true; revoked_at = some 0; replaced_by = some "r2" }) chain_db
      "r2" chain-Ordered refl refl reaches

can_rotate : CanRotate outside defaults "jti1" app "read" (at 0) fresh db
unfolding get_token words
can_rotate = record {
  row = first;
  found = refl;
  user = refl;
  acceptable = record { active = refl; fresh = omega arith; owned = refl; narrower = refl };
}

is_rotated :
    IsRotated outside defaults "jti1" app "read" (at 0) fresh db first granted rotate_read.1
unfolding consume_refresh_token issue_refresh_token get_token words save_token
is_rotated = record { next = refl; granted_as = refl; tenant = refl; user = refl; tokens = refl }

abbrev second : RefreshToken
second = granted.new_refresh_token

descends : Descends outside defaults first second
unfolding get_token
descends = later here (rotation "jti1" app "read" (at 0) fresh db granted refl rotated refl)

Descends-IsNarrower_example :
    IsNarrower second.scope first.scope
    × (second.tenant_id ≡ first.tenant_id)
    × (second.user_id ≡ first.user_id)
    × (second.client ≡ first.client)
Descends-IsNarrower_example = Descends-IsNarrower outside defaults descends

first-IsWellFormed : IsWellFormed db.tokens
unfolding index
first-IsWellFormed = record {
  distinct = (tt, tt);
  ordered = record { nearer = λ k q h. ground (arith, eq_iff "r1" k) };
}

rotation_keeps_example :
    IsWellFormed rotate_read.1.tokens × ((e : Error) → rotate_read.0 ≡ err e → rotate_read.1 ≡ db)
rotation_keeps_example =
    rotation_keeps outside defaults "jti1" app "read" (at 0) fresh db unused first-IsWellFormed
