-- ===== src/IamOauth/Refresh/Rotating.antt =====
-- When a refresh token is rotated, and that it is rotated once.
use drf_enterprise_informati.Prelude.{
  ok_injective, ℕ, ◌≤◌, String, ◌≡◌, ◌≢◌, refl, sym, ◌∙◌, true, false, List, ◌∷◌, arith, eq_iff,
  Result, ok, err, Bool-cases, inl, inr, All, is_subset,
}
use drf_enterprise_informati.Core.PyText.{words}
use drf_enterprise_informati.IamOauth.Model.{
  Client, RefreshToken, Db, Error, refresh_revoked, get_token, save_token,
}
use drf_enterprise_informati.IamOauth.Model.Rows.{
  DistinctTokens, get_token-save, get_token-value, get_token-lacks, get_token-cons,
}
use drf_enterprise_informati.IamOauth.Codes.{
  Settings, Outside, Fresh, issue_refresh_token, new_refresh_token,
}
use drf_enterprise_informati.IamOauth.Refresh.{
  Moments, TokenData, granted_scope, replaced, check_token, rotate, rotate_checked, rotate_found,
  consume_refresh_token,
}

-- What makes a stored refresh token acceptable to a request, at a moment.
pub record IsAcceptable (row : RefreshToken) (client : Client) (scope : String) (now : ℕ)
    : Type 0 where
  pub active : row.is_revoked ≡ false
  pub fresh : now ≤ row.expires_at
  pub owned : row.client ≡ client.pk
  pub narrower : is_subset (words (granted_scope row scope)) (words row.scope) ≡ true

check_token_sound :
    (row : RefreshToken) (client : Client) (scope : String) (now : ℕ)
    → check_token row client scope now ≡ ok tt
    → IsAcceptable row client scope now
unfolding check_token
check_token_sound row client scope now h = record {
  active = ground arith;
  fresh = ground arith;
  owned = ground (arith, eq_iff row.client client.pk);
  narrower = ground arith;
}

check_token_complete :
    (row : RefreshToken) (client : Client) (scope : String) (now : ℕ)
    → IsAcceptable row client scope now
    → check_token row client scope now ≡ ok tt
unfolding check_token
check_token_complete row client scope now a =
    ground (arith, a.active, a.fresh, a.owned, a.narrower, eq_iff row.client client.pk)

module _ (outside : Outside) (settings : Settings) (token : String) (client : Client)
    (scope : String) (t : Moments) (fresh : Fresh) (db : Db) where
  abbrev outcome : Result Error TokenData × Db
  outcome = consume_refresh_token outside settings token client scope t fresh db

  pub record CanRotate : Type 0 where
    pub row : RefreshToken
    pub found : get_token token db.tokens ≡ ok row
    pub acceptable : IsAcceptable row client scope t.checking
    pub user : outside.is_uuid row.user_id ≡ true

  -- What a rotation that succeeds leaves behind.
  pub record IsRotated (row : RefreshToken) (granted : TokenData) (after : Db) : Type 0 where
    pub next :
        granted.new_refresh_token
        ≡ new_refresh_token outside settings client row.tenant_id row.user_id
            (granted_scope row scope)
            fresh
            t.issuing
    pub granted_as : granted.scope ≡ granted_scope row scope
    pub tenant : granted.tenant_id ≡ row.tenant_id
    pub user : granted.user_id ≡ row.user_id
    pub tokens :
        after.tokens
        ≡ save_token
            (replaced row granted.new_refresh_token t.revoking)
            (granted.new_refresh_token ∷ db.tokens)

  rotate_ok :
      (c : CanRotate)
      → (granted : TokenData) × (outcome.0 ≡ ok granted) × IsRotated c.row granted outcome.1
  unfolding consume_refresh_token issue_refresh_token
  rotate_ok c =
      rw (c.found, rotate_found)
        (rw (check_token_complete c.row client scope t.checking c.acceptable, rotate_checked)
          (rw (c.user, rotate)
            (
              _,
              refl,
              record { next = refl; granted_as = refl; tenant = refl; user = refl; tokens = refl },
            )))

  rotate_ok_only : (granted : TokenData) → outcome.0 ≡ ok granted → CanRotate
  unfolding consume_refresh_token issue_refresh_token
  rotate_ok_only granted h = go (get_token token db.tokens) refl
    where
      checked :
          (row : RefreshToken)
          → get_token token db.tokens ≡ ok row
          → (r : Result Error (Unit {0})) → check_token row client scope t.checking ≡ r
          → CanRotate
      checked row e (err x) e' =
          absurd (cc (rw (e', rotate_checked) at (rw (e, rotate_found) at h)))
      checked row e (ok u) e' = record {
        row = row;
        found = e;
        acceptable = check_token_sound row client scope t.checking e';
        user = elim (Bool-cases (outside.is_uuid row.user_id)) [
          | inl y ↦ y
          | inr n ↦
              absurd
                (cc (rw (n, rotate) at (rw (e', rotate_checked) at (rw (e, rotate_found) at h))))
        ];
      }

      go : (r : Result Error RefreshToken) → get_token token db.tokens ≡ r → CanRotate
      go (err x) e = absurd (cc (rw (e, rotate_found) at h))
      go (ok row) e = checked row e (check_token row client scope t.checking) refl

  -- A refresh token is rotated exactly if it is stored, not revoked, not past its expiry, of this
  -- client, of a valid user, and every scope that is asked for is one of its scopes. Then the new
  -- token has the tenant and the user of the old one, with the scope asked for or else the old
  -- one's, and the old one is revoked and linked to it.
  pub rotate_iff :
      ((granted : TokenData)
        → outcome.0 ≡ ok granted
        → (c : CanRotate) × IsRotated c.row granted outcome.1)
      × (CanRotate → (granted : TokenData) × (outcome.0 ≡ ok granted))
  rotate_iff = (
    λ granted h.
        let c = rotate_ok_only granted h in
        let (made, e, g) = rotate_ok c in (c, rw (ok_injective made granted (sym e ∙ h)) at g),
    λ c. let (made, e, _) = rotate_ok c in (made, e),
  )

-- The values drawn for a new row are in no row yet.
pub record IsFresh (fresh : Fresh) (rows : List RefreshToken) : Type 0 where
  pub pk : All (λ r. r.pk ≢ fresh.pk) rows
  pub value : All (λ r. r.token ≢ fresh.value) rows

rejects_revoked :
    (outside : Outside) (settings : Settings) (token : String) (client : Client) (scope : String)
    (t : Moments) (fresh : Fresh) (db : Db) (row : RefreshToken)
    → get_token token db.tokens ≡ ok row
    → row.is_revoked ≡ true
    → consume_refresh_token outside settings token client scope t fresh db
      ≡ (err refresh_revoked, db)
unfolding consume_refresh_token check_token
rejects_revoked outside settings token client scope t fresh db row found used =
    rw (found, rotate_found) (rw (used, rotate_checked))

module _ (outside : Outside) (settings : Settings) (token : String) (client : Client)
    (scope : String) (t : Moments) (fresh : Fresh) (db : Db) where
  next_value :
      (granted : TokenData) (c : CanRotate outside settings token client scope t fresh db)
      (after : Db)
      → IsRotated outside settings token client scope t fresh db c.row granted after
      → granted.new_refresh_token.token ≡ fresh.value
  unfolding new_refresh_token
  next_value granted c after g = rw g.next

  next_pk :
      (granted : TokenData) (c : CanRotate outside settings token client scope t fresh db)
      (after : Db)
      → IsRotated outside settings token client scope t fresh db c.row granted after
      → granted.new_refresh_token.pk ≡ fresh.pk
  unfolding new_refresh_token
  next_pk granted c after g = rw g.next

  -- The rows after a rotation: the presented token is found revoked, and the new one is found.
  pub rotated_rows :
      (granted : TokenData) (c : CanRotate outside settings token client scope t fresh db)
      (after : Db)
      → IsRotated outside settings token client scope t fresh db c.row granted after
      → DistinctTokens db.tokens
      → IsFresh fresh db.tokens
      → get_token token after.tokens ≡ ok (replaced c.row granted.new_refresh_token t.revoking)
  rotated_rows granted c after g d f =
      let next = granted.new_refresh_token in
      let value : c.row.token ≡ token = get_token-value token c.row db.tokens c.found in
      let apart : next.token ≢ token = λ e.
        get_token-lacks token fresh.value c.row db.tokens c.found f.value
          (value ∙ sym e ∙ next_value granted c after g) in
      rw g.tokens (
        get_token-save token c.row (replaced c.row next t.revoking) (next ∷ db.tokens)
          (rw (next_pk granted c after g) f.pk, d) refl value
          (get_token-cons token next db.tokens apart ∙ c.found))

-- After a refresh token has been rotated once, presenting it again fails as revoked and changes
-- nothing, whoever presents it. The primary keys of the rows differ, and the values drawn for the
-- new row are in no older row.
pub rotate_once :
    (outside : Outside) (settings : Settings) (token : String) (client other : Client)
    (scope scope' : String) (t t' : Moments) (fresh fresh' : Fresh) (db : Db) (granted : TokenData)
    → DistinctTokens db.tokens
    → IsFresh fresh db.tokens
    → (consume_refresh_token outside settings token client scope t fresh db).0 ≡ ok granted
    → consume_refresh_token outside settings token other scope' t' fresh'
        (consume_refresh_token outside settings token client scope t fresh db).1
      ≡ (
        err refresh_revoked,
        (consume_refresh_token outside settings token client scope t fresh db).1,
      )
rotate_once outside settings token client other scope scope' t t' fresh fresh' db granted d f h =
    let (c, g) = (rotate_iff outside settings token client scope t fresh db).0 granted h in
    let after = (consume_refresh_token outside settings token client scope t fresh db).1 in
    rejects_revoked outside settings token other scope' t' fresh' after
      (replaced c.row granted.new_refresh_token t.revoking)
      (rotated_rows outside settings token client scope t fresh db granted c after g d f) refl
