-- ===== src/IamOauth/Refresh/Revoking.antt =====
-- What a request to the revocation endpoint of apps/iam_oauth/views.py revokes.
use drf_enterprise_informati.Prelude.{
  ℕ, String, ◌≡◌, refl, true, false, not, ◌&&◌, Option, none, some, arith, ◌==◌, eq_iff, Result, ok,
  err, Bool-cases, inl, inr, ◌⊎◌, is_set,
}
use drf_enterprise_informati.IamOauth.Model.{Client, RefreshToken, Db, Error, get_token}
use drf_enterprise_informati.IamOauth.Model.Rows.{DistinctTokens}
use drf_enterprise_informati.IamOauth.Codes.{Settings, Outside, Fresh}
use drf_enterprise_informati.IamOauth.Refresh.{
  Moments, TokenData, replaced, RevokeRequest, FoundClient, client, no_client, several, find_client,
  secret_is, consume_refresh_token, revoke_refresh_token_chain, revoke_record, revoke_decoded,
  revoke_as, revoke_view,
}
use drf_enterprise_informati.IamOauth.Refresh.Rotating.{IsFresh, rotate_iff, rotated_rows}

module _ (now : ℕ) (decode : String → Option String) (request : RevokeRequest) (db : Db) where
  -- The stored token that the request stands for, and the client that may revoke it.
  pub record IsRevocable : Type 0 where
    pub owner : Client
    pub found : find_client request.client_id db.clients ≡ client owner
    pub authorised :
        owner.is_confidential ≡ true → secret_is owner.client_secret request.client_secret ≡ true
    pub token_ref : String
    pub decoded : decode request.token ≡ some token_ref
    pub row : RefreshToken
    pub stored : get_token token_ref db.tokens ≡ ok row
    pub owned : row.client ≡ owner.pk
    pub active : row.is_revoked ≡ false

  abbrev pub RevokesOrNot : Db → Type 0
  RevokesOrNot after =
      ((r : IsRevocable) × (after.tokens ≡ (revoke_refresh_token_chain now r.row db).tokens))
      ⊎ (after ≡ db)

  by_record :
      (c : Client) (ref : String) (row : RefreshToken)
      → find_client request.client_id db.clients ≡ client c
      → (c.is_confidential ≡ true → secret_is c.client_secret request.client_secret ≡ true)
      → decode request.token ≡ some ref
      → get_token ref db.tokens ≡ ok row
      → RevokesOrNot (revoke_record now c row db)
  unfolding revoke_record
  by_record c ref row found authorised decoded stored = elim (Bool-cases (row.client == c.pk)) [
    | inr e ↦ inr (ground arith)
    | inl e ↦ elim (Bool-cases row.is_revoked) [
      | inl used ↦ inr (ground arith)
      | inr active ↦ inl (
        record {
          owner = c;
          found = found;
          authorised = authorised;
          token_ref = ref;
          decoded = decoded;
          row = row;
          stored = stored;
          owned = (eq_iff row.client c.pk).0 e;
          active = active;
        },
        rw (e, active) refl,
      )
    ]
  ]

  by_token :
      (c : Client) (decoded : Option String)
      → find_client request.client_id db.clients ≡ client c
      → (c.is_confidential ≡ true → secret_is c.client_secret request.client_secret ≡ true)
      → decode request.token ≡ decoded
      → RevokesOrNot (revoke_decoded now c decoded db)
  unfolding revoke_decoded
  by_token c none found authorised e = inr refl
  by_token c (some ref) found authorised e = go (get_token ref db.tokens) refl
    where
      go :
          (r : Result Error RefreshToken)
          → get_token ref db.tokens ≡ r
          → RevokesOrNot (elim r [ err x ↦ db | ok row ↦ revoke_record now c row db ])
      go (err x) h = inr refl
      go (ok row) h = by_record c ref row found authorised e h

  by_client :
      (f : FoundClient)
      → find_client request.client_id db.clients ≡ f
      → RevokesOrNot (revoke_as now decode request f db).1
  unfolding revoke_as
  by_client no_client e = inr refl
  by_client several e = inr refl
  by_client (client c) e =
      elim (Bool-cases
        (c.is_confidential && not (secret_is c.client_secret request.client_secret))) [
          | inl wrong ↦ inr (ground arith)
          | inr right ↦
              rw right (by_token c (decode request.token) e (λ confidential. ground arith) refl)
        ]

  -- A revocation request either revokes the chain of a stored and unrevoked token, in the name of
  -- the one active client with the id that was sent, whose token it is and whose secret was sent if
  -- the client is confidential; or it changes nothing at all.
  pub revoke_or_unchanged : RevokesOrNot (revoke_view now decode request db).1
  unfolding revoke_view
  revoke_or_unchanged = elim (Bool-cases (is_set request.token && is_set request.client_id)) [
    | inl e ↦ rw e (by_client (find_client request.client_id db.clients) refl)
    | inr e ↦ inr (ground arith)
  ]

  -- A request for a token whose row is revoked changes nothing.
  revoked_ignored :
      (token_ref : String) (row : RefreshToken)
      → decode request.token ≡ some token_ref
      → get_token token_ref db.tokens ≡ ok row
      → row.is_revoked ≡ true
      → (revoke_view now decode request db).1 ≡ db
  revoked_ignored ref row decoded stored used = elim revoke_or_unchanged [
    | inr same ↦ same
    | inl (r, _) ↦
        (let refs : ◌≡◌ {A = Option String} (some ref) (some r.token_ref) =
            cc (decoded, r.decoded) in
          let same : ref ≡ r.token_ref = ground arith in
          let stored' : get_token r.token_ref db.tokens ≡ ok row = rw (← same) stored in
          let rows : ◌≡◌ {A = Result Error RefreshToken} (ok row) (ok r.row) =
            cc (stored', r.stored) in
          absurd (ground (arith, r.active)))
  ]

-- Once a refresh token has been rotated, a request to revoke it changes nothing, whoever sends
-- it, so neither is the token revoked that replaced it. The primary keys of the rows differ, and
-- the values drawn for the new row are in no older row.
pub revoke_after_rotation :
    (outside : Outside) (settings : Settings) (token : String) (c : Client) (scope : String)
    (t : Moments) (fresh : Fresh) (db : Db) (granted : TokenData) (now : ℕ)
    (decode : String → Option String) (request : RevokeRequest)
    → DistinctTokens db.tokens
    → IsFresh fresh db.tokens
    → (consume_refresh_token outside settings token c scope t fresh db).0 ≡ ok granted
    → decode request.token ≡ some token
    → (revoke_view now decode request
        (consume_refresh_token outside settings token c scope t fresh db).1).1
      ≡ (consume_refresh_token outside settings token c scope t fresh db).1
revoke_after_rotation outside settings token c scope t fresh db granted now decode request d f h
      decoded =
    let (can, g) = (rotate_iff outside settings token c scope t fresh db).0 granted h in
    let after = (consume_refresh_token outside settings token c scope t fresh db).1 in
    revoked_ignored now decode request after token
      (replaced can.row granted.new_refresh_token t.revoking) decoded
      (rotated_rows outside settings token c scope t fresh db granted can after g d f) refl
