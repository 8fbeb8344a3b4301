-- ===== src/IamOauth/Refresh.antt =====
-- apps/iam_oauth/services.py: rotating a refresh token and revoking a chain of them; the revocation
-- endpoint of views.py.
pub mod Rotating
pub mod Clients
pub mod Scopes
pub mod Chain
pub mod Revoking
pub mod Invariant
mod Tests
use drf_enterprise_informati.Prelude.{
  ℕ, zero, suc, ◌+◌, String, Bool, true, false, not, ◌&&◌, Option, none, some, List, [], ◌∷◌, ◌==◌,
  ltb, if◌then◌else◌, Result, ok, err, ◌>>=◌, ◌>>◌, raise_if, is_set, or_empty, or_default,
  is_subset, length, find_first,
}
use drf_enterprise_informati.Core.PyText.{words}
use drf_enterprise_informati.IamOauth.Model.{
  Client, RefreshToken, Event, Db, Error, does_not_exist, multiple_objects, invalid_refresh_token,
  refresh_revoked, refresh_expired, client_mismatch, scope_exceeded, get_token, save_token,
}
use drf_enterprise_informati.IamOauth.Codes.{Settings, Outside, Fresh, issue_refresh_token}

-- `scope or record.scope`
abbrev pub granted_scope : RefreshToken → String → String
granted_scope row scope = if is_set scope then scope else row.scope

-- When the parts of a rotation read the clock.
pub record Moments : Type 0 where
  pub checking : ℕ
  pub issuing : ℕ
  pub revoking : ℕ

pub record TokenData : Type 0 where
  pub user_id : String
  pub tenant_id : String
  pub scope : String
  pub client_id : String
  pub grant_type : String
  pub new_refresh_token : RefreshToken

-- The tests of `consume_refresh_token`, in their order.
check_token : RefreshToken → Client → String → ℕ → Result Error (Unit {0})
check_token row client scope now = do
  raise_if row.is_revoked refresh_revoked
  raise_if (ltb row.expires_at now) refresh_expired
  raise_if (not (row.client == client.pk)) client_mismatch
  raise_if (not (is_subset (words (granted_scope row scope)) (words row.scope))) scope_exceeded

abbrev pub replaced : RefreshToken → RefreshToken → ℕ → RefreshToken
replaced row next now = record row {
  is_revoked = true;
  revoked_at = some now;
  replaced_by = some next.pk;
}

module _ (outside : Outside) (settings : Settings) where
  -- The new row is stored first; then the old one is marked and linked to it.
  link :
      Client
      → RefreshToken
      → String
      → Moments
      → Result Error RefreshToken × Db
      → Result Error TokenData × Db
  link client row scope t (err e, db) = (err e, db)
  link client row scope t (ok next, db) = (
    ok (record {
      user_id = row.user_id;
      tenant_id = row.tenant_id;
      scope = granted_scope row scope;
      client_id = client.client_id;
      grant_type = "refresh_token";
      new_refresh_token = next;
    }),
    record db { tokens = save_token (replaced row next t.revoking) db.tokens },
  )

  rotate : Client → RefreshToken → String → Moments → Fresh → Db → Result Error TokenData × Db
  unfolding link
  rotate client row scope t fresh db = link client row scope t (
      issue_refresh_token outside settings client row.tenant_id row.user_id
        (granted_scope row scope) fresh t.issuing db)

  rotate_checked :
      Client
      → RefreshToken
      → String
      → Moments
      → Fresh
      → Db
      → Result Error (Unit {0})
      → Result Error TokenData × Db
  unfolding rotate
  rotate_checked client row scope t fresh db (err e) = (err e, db)
  rotate_checked client row scope t fresh db (ok _) = rotate client row scope t fresh db

  -- `except DoesNotExist`; several rows with one token are another error
  not_found : Error → Error
  not_found does_not_exist = invalid_refresh_token
  not_found e = e

  rotate_found :
      Client
      → String
      → Moments
      → Fresh
      → Db
      → Result Error RefreshToken
      → Result Error TokenData × Db
  unfolding not_found check_token rotate_checked
  rotate_found client scope t fresh db (err e) = (err (not_found e), db)
  rotate_found client scope t fresh db (ok row) =
      rotate_checked client row scope t fresh db (check_token row client scope t.checking)

  pub consume_refresh_token :
      String → Client → String → Moments → Fresh → Db → Result Error TokenData × Db
  unfolding rotate_found
  consume_refresh_token token client scope t fresh db =
      rotate_found client scope t fresh db (get_token token db.tokens)

abbrev pub revoked : RefreshToken → ℕ → RefreshToken
revoked row now = record row { is_revoked = true; revoked_at = some now }

abbrev pub mark : ℕ → RefreshToken → List RefreshToken → List RefreshToken
mark now row tokens = if row.is_revoked then tokens else save_token (revoked row now) tokens

-- The row that a foreign key names.
abbrev pub by_pk : String → List RefreshToken → Option RefreshToken
by_pk pk tokens = find_first (λ r. r.pk == pk) tokens

-- `current.replaced_by`
abbrev pub successor : RefreshToken → List RefreshToken → Option RefreshToken
successor row tokens = elim row.replaced_by [ none ↦ none | some pk ↦ by_pk pk tokens ]

-- The loop of `revoke_refresh_token_chain`, on fuel.
unfoldable pub walk : ℕ → ℕ → Option RefreshToken → List RefreshToken → List RefreshToken
walk zero now current tokens = tokens
walk (suc fuel) now none tokens = tokens
walk (suc fuel) now (some row) tokens =
    walk fuel now (successor row (mark now row tokens)) (mark now row tokens)

unfoldable pub revoke_refresh_token_chain : ℕ → RefreshToken → Db → Db
unfolding walk
revoke_refresh_token_chain now row db = record db {
  tokens = walk (suc (length db.tokens)) now (some row) db.tokens;
}

-- The body of a revocation request. The refresh token is a JWT: `decode` gives its `jti`, or `none`
-- for a token that the JWT library refuses.
pub record RevokeRequest : Type 0 where
  pub token : String
  pub client_id : String
  pub client_secret : String

-- `OAuth2Client.objects.get(client_id=…, is_active=True)`; a client that several rows match raises
-- an error that the view does not catch
pub data FoundClient : Type 0 where
  no_client : FoundClient
  client : Client → FoundClient
  several : FoundClient

active_clients : String → List Client → List Client
active_clients client_id [] = []
active_clients client_id (c ∷ cs) =
    let rest = active_clients client_id cs in
    if c.client_id == client_id && c.is_active then c ∷ rest else rest

only_client : List Client → FoundClient
only_client [] = no_client
only_client (c ∷ []) = client c
only_client (c ∷ d ∷ rest) = several

unfoldable pub find_client : String → List Client → FoundClient
unfolding active_clients only_client
find_client client_id clients = only_client (active_clients client_id clients)

-- `client.client_secret != client_secret`, where the column may be null
abbrev pub secret_is : Option String → String → Bool
secret_is none given = false
secret_is (some secret) given = secret == given

pub data Response : Type 0 where
  ok_200 server_error : Response

-- The part of the view after the client and the token are known.
revoke_record : ℕ → Client → RefreshToken → Db → Db
unfolding revoke_refresh_token_chain
revoke_record now c row db =
    if not (row.client == c.pk)
    then db
    else if row.is_revoked
    then db
    else (let after = revoke_refresh_token_chain now row db in
        record after {
          events =
              record {
                name = "token_revoked";
                tenant_id = row.tenant_id;
                client_id = c.client_id;
                user_id = row.user_id;
                detail = "";
              }
              ∷ after.events;
        })

revoke_decoded : ℕ → Client → Option String → Db → Db
unfolding revoke_record
revoke_decoded now c none db = db
revoke_decoded now c (some token_ref) db = elim (get_token token_ref db.tokens) [
  | err e ↦ db
  | ok row ↦ revoke_record now c row db
]

revoke_as : ℕ → (String → Option String) → RevokeRequest → FoundClient → Db → Response × Db
unfolding revoke_decoded
revoke_as now decode request no_client db = (ok_200, db)
revoke_as now decode request several db = (server_error, db)
revoke_as now decode request (client c) db =
    if c.is_confidential && not (secret_is c.client_secret request.client_secret)
    then (ok_200, db)
    else (ok_200, revoke_decoded now c (decode request.token) db)

-- `RevokeView.post`
pub revoke_view : ℕ → (String → Option String) → RevokeRequest → Db → Response × Db
unfolding revoke_as
revoke_view now decode request db =
    if is_set request.token && is_set request.client_id
    then revoke_as now decode request (find_client request.client_id db.clients) db
    else (ok_200, db)
