-- ===== src/IamOauth/Grants/Exchanging.antt =====
-- The exchange of a code at the token endpoint.
use drf_enterprise_informati.Prelude.{
  ◌≤◌, String, ◌≡◌, refl, sym, true, false, some, arith, ◌==◌, eq_refl, ok, or_empty, find_first,
}
use mathlib.Core.Path.{subst}
use drf_enterprise_informati.IamOauth.Model.{Client, AuthorizationCode, Db, get_code}
use drf_enterprise_informati.IamOauth.Model.Rows.{get_code-value}
use drf_enterprise_informati.IamOauth.Codes.{Settings, Outside, Fresh, Moments, TokenData}
use drf_enterprise_informati.IamOauth.Codes.Consuming.{CanConsume, consume_iff}
use drf_enterprise_informati.IamOauth.Grants.{
  owner_of, found_code, validate_code, consume_validated, code_grant,
}

module _ (outside : Outside) (settings : Settings) (code : String) (t : Moments) (fresh : Fresh)
    (db : Db) (row : AuthorizationCode) (c : Client) where
  accepted :
      get_code code db.codes ≡ ok row
      → row.is_consumed ≡ false
      → find_first (λ x. x.pk == row.client) db.clients ≡ some c
      → validate_code outside settings db code c.client_id "" ≡ ok (row, c)
  unfolding validate_code found_code
  accepted found unused owner =
      let owned : owner_of outside settings row db.clients ≡ ok c = ground (arith, owner) in
      ground (arith, found, unused, owned, eq_refl c.client_id)

  -- Whoever sends a code and its client's id gets the tokens of the code's user, without the
  -- client's secret or a verifier: for every stored code that is unused, fresh, of a valid user and
  -- of any client, confidential and inactive ones included.
  pub code_grant_unauthenticated :
      get_code code db.codes ≡ ok row
      → row.is_consumed ≡ false
      → t.checking ≤ row.expires_at
      → find_first (λ x. x.pk == row.client) db.clients ≡ some c
      → c.pk ≡ row.client
      → outside.is_uuid (or_empty row.user_id) ≡ true
      → (granted : TokenData) × ((code_grant outside settings code c.client_id "" "" t fresh db).0
          ≡ ok granted)
  unfolding code_grant
  code_grant_unauthenticated found unused in_time owner same user =
      let can : CanConsume outside settings row.code c row.redirect_uri "" t.checking db = record {
        row = row;
        found =
            subst (λ k. get_code k db.codes ≡ ok row) (sym (get_code-value code row db.codes found))
              found;
        user = user;
        acceptable = record {
          unused = unused;
          fresh = in_time;
          owned = sym same;
          redirect = λ _. refl;
          proof = λ _ given. absurd (given refl);
        };
      } in
      rw (accepted found unused owner, consume_validated)
        ((consume_iff outside settings row.code c row.redirect_uri "" t fresh db).1 can)
