-- ===== src/IamOauth/Codes/Consuming.antt =====
-- When a code is accepted, and that it is accepted once.
use drf_enterprise_informati.Prelude.{
  ok_injective, ℕ, ◌≤◌, String, ◌≡◌, ◌≢◌, refl, sym, ◌∙◌, true, false, ◌∷◌, arith, eq_iff, Result,
  ok, err, Bool-cases, inl, inr, or_empty, is_set_iff,
}
use drf_enterprise_informati.IamOauth.Model.{
  Client, AuthorizationCode, Db, Error, already_consumed, get_code, save_code,
}
use drf_enterprise_informati.IamOauth.Model.Rows.{DistinctCodes, get_code-save, get_code-value}
use drf_enterprise_informati.IamOauth.Codes.{
  Settings, Outside, Fresh, Moments, TokenData, consumed, computed_challenge, method_of, check_code,
  consume_row, consume_checked, consume_found, consume_authorization_code, issue_refresh_token,
}

module _ (outside : Outside) where
  -- What makes a stored code acceptable to a request, at a moment.
  pub record IsAcceptable (row : AuthorizationCode) (client : Client)
      (redirect_uri verifier : String) (now : ℕ) : Type 0 where
    pub unused : row.is_consumed ≡ false
    pub fresh : now ≤ row.expires_at
    pub owned : row.client ≡ client.pk
    pub redirect : redirect_uri ≢ "" → row.redirect_uri ≡ redirect_uri
    pub proof :
        or_empty row.code_challenge ≢ ""
        → verifier ≢ ""
        → computed_challenge outside (method_of row.code_challenge_method) verifier
          ≡ or_empty row.code_challenge

  check_code_sound :
      (row : AuthorizationCode) (client : Client) (redirect_uri verifier : String) (now : ℕ)
      → check_code outside row client redirect_uri verifier now ≡ ok tt
      → IsAcceptable row client redirect_uri verifier now
  unfolding check_code
  check_code_sound row client redirect_uri verifier now h = record {
    unused = ground arith;
    fresh = ground arith;
    owned = ground (arith, eq_iff row.client client.pk);
    redirect = λ given.
        ground (arith, (is_set_iff redirect_uri).1 given, eq_iff row.redirect_uri redirect_uri);
    proof = λ challenged given. ground (
      arith,
      (is_set_iff verifier).1 given,
      (is_set_iff (or_empty row.code_challenge)).1 challenged,
      eq_iff (computed_challenge outside (method_of row.code_challenge_method) verifier)
          (or_empty row.code_challenge),
    );
  }

  check_code_complete :
      (row : AuthorizationCode) (client : Client) (redirect_uri verifier : String) (now : ℕ)
      → IsAcceptable row client redirect_uri verifier now
      → check_code outside row client redirect_uri verifier now ≡ ok tt
  unfolding check_code
  check_code_complete row client redirect_uri verifier now a = ground (
    arith,
    a.unused,
    a.fresh,
    a.owned,
    a.redirect,
    a.proof,
    is_set_iff redirect_uri,
    is_set_iff verifier,
    is_set_iff (or_empty row.code_challenge),
    eq_iff row.client client.pk,
    eq_iff row.redirect_uri redirect_uri,
    eq_iff (computed_challenge outside (method_of row.code_challenge_method) verifier)
        (or_empty row.code_challenge),
  )

module _ (outside : Outside) (settings : Settings) (code : String) (client : Client) where
  abbrev consume : String → String → Moments → Fresh → Db → Result Error TokenData × Db
  consume redirect_uri verifier t fresh db =
      consume_authorization_code outside settings code client redirect_uri verifier t fresh db

  -- The code is stored, acceptable, and belongs to a user whose token can be stored.
  pub record CanConsume (redirect_uri verifier : String) (now : ℕ) (db : Db) : Type 0 where
    pub row : AuthorizationCode
    pub found : get_code code db.codes ≡ ok row
    pub acceptable : IsAcceptable outside row client redirect_uri verifier now
    pub user : outside.is_uuid (or_empty row.user_id) ≡ true

  -- What a consumption that succeeds leaves behind.
  pub record IsGranted (row : AuthorizationCode) (t : Moments) (db : Db) (granted : TokenData)
      (after : Db) : Type 0 where
    pub scope : granted.scope ≡ row.scope
    pub tenant : granted.tenant_id ≡ row.tenant_id
    pub token_scope : granted.refresh_token.scope ≡ row.scope
    pub token_tenant : granted.refresh_token.tenant_id ≡ row.tenant_id
    pub token_client : granted.refresh_token.client ≡ client.pk
    pub stored : after.tokens ≡ granted.refresh_token ∷ db.tokens
    pub codes : after.codes ≡ save_code (consumed row t.consuming) db.codes

  module _ (redirect_uri verifier : String) (t : Moments) (fresh : Fresh) (db : Db) where
    consume_ok :
        (c : CanConsume redirect_uri verifier t.checking db)
        → (granted : TokenData) × ((consume redirect_uri verifier t fresh db).0 ≡ ok granted)
          × IsGranted c.row t db granted (consume redirect_uri verifier t fresh db).1
    unfolding consume_authorization_code issue_refresh_token
    consume_ok c =
        rw (c.found, consume_found)
          (rw
            (
              check_code_complete outside c.row client redirect_uri verifier t.checking
                  c.acceptable,
              consume_checked,
            )
            (rw (c.user, consume_row)
              (
                _,
                refl,
                record {
                  scope = refl;
                  tenant = refl;
                  token_scope = refl;
                  token_tenant = refl;
                  token_client = refl;
                  stored = refl;
                  codes = refl;
                },
              )))

    consume_ok_only :
        (granted : TokenData)
        → (consume redirect_uri verifier t fresh db).0 ≡ ok granted
        → CanConsume redirect_uri verifier t.checking db
    unfolding consume_authorization_code issue_refresh_token
    consume_ok_only granted h = go (get_code code db.codes) refl
      where
        checked :
            (row : AuthorizationCode)
            → get_code code db.codes ≡ ok row
            → (r : Result Error (Unit {0}))
            → check_code outside row client redirect_uri verifier t.checking ≡ r
            → CanConsume redirect_uri verifier t.checking db
        checked row e (err x) e' =
            absurd (cc (rw (e', consume_checked) at (rw (e, consume_found) at h)))
        checked row e (ok u) e' = record {
          row = row;
          found = e;
          acceptable = check_code_sound outside row client redirect_uri verifier t.checking e';
          user = elim (Bool-cases (outside.is_uuid (or_empty row.user_id))) [
            | inl y ↦ y
            | inr n ↦ absurd (
                cc (
                  rw (n, consume_row) at
                    (rw (e', consume_checked) at (rw (e, consume_found) at h))))
          ];
        }

        go :
            (r : Result Error AuthorizationCode)
            → get_code code db.codes ≡ r
            → CanConsume redirect_uri verifier t.checking db
        go (err x) e = absurd (cc (rw (e, consume_found) at h))
        go (ok row) e =
            checked row e (check_code outside row client redirect_uri verifier t.checking) refl

    -- A code is exchanged for tokens exactly if it is stored, not consumed, not past its expiry,
    -- of this client, with the redirect URI if one is sent, with a verifier that fits the challenge
    -- if both are there, and of a valid user. Then the code is marked as consumed, and the one new
    -- refresh token has the code's tenant and scope and belongs to the client.
    pub consume_iff :
        ((granted : TokenData)
          → (consume redirect_uri verifier t fresh db).0 ≡ ok granted
          → (c : CanConsume redirect_uri verifier t.checking db) × IsGranted c.row t db granted
              (consume redirect_uri verifier t fresh db).1)
        × (CanConsume redirect_uri verifier t.checking db
            → (granted : TokenData) × ((consume redirect_uri verifier t fresh db).0 ≡ ok granted))
    consume_iff = (
      λ granted h.
          let c = consume_ok_only granted h in
          let (made, e, g) = consume_ok c in
          let same : made ≡ granted = ok_injective made granted (sym e ∙ h) in (c, rw same at g),
      λ c. let (made, e, _) = consume_ok c in (made, e),
    )

  rejects_consumed :
      (uri verifier : String) (t : Moments) (fresh : Fresh) (db : Db) (row : AuthorizationCode)
      → get_code code db.codes ≡ ok row
      → row.is_consumed ≡ true
      → consume uri verifier t fresh db ≡ (err already_consumed, db)
  unfolding consume_authorization_code check_code
  rejects_consumed uri verifier t fresh db row found used =
      rw (found, consume_found) (rw (used, consume_checked))

-- After a code has been exchanged once, every further attempt with it fails as already consumed
-- and changes nothing, whichever client makes it and whatever it sends. No two rows of codes have
-- one primary key.
pub consume_once :
    (outside : Outside) (settings : Settings) (code : String) (client other : Client)
    (uri verifier uri' verifier' : String) (t t' : Moments) (fresh fresh' : Fresh) (db : Db)
    (granted : TokenData)
    → DistinctCodes db.codes
    → (consume_authorization_code outside settings code client uri verifier t fresh db).0
      ≡ ok granted
    → consume_authorization_code outside settings code other uri' verifier' t' fresh'
        (consume_authorization_code outside settings code client uri verifier t fresh db).1
      ≡ (
        err already_consumed,
        (consume_authorization_code outside settings code client uri verifier t fresh db).1,
      )
consume_once outside settings code client other uri verifier uri' verifier' t t' fresh fresh' db
      granted d h =
    let (c, g) = (consume_iff outside settings code client uri verifier t fresh db).0 granted h in
    let after =
      (consume_authorization_code outside settings code client uri verifier t fresh db).1 in
    let row = consumed c.row t.consuming in
    let found : get_code code after.codes ≡ ok row = rw g.codes (
      get_code-save code c.row row db.codes d refl (get_code-value code c.row db.codes c.found)
        c.found) in
    rejects_consumed outside settings code other uri' verifier' t' fresh' after row found refl
