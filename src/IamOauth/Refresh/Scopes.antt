-- ===== src/IamOauth/Refresh/Scopes.antt =====
-- Scopes along a chain of rotations.
use drf_enterprise_informati.Prelude.{
  String, ◌≡◌, refl, sym, ◌∙◌, true, ok, ok_injective, contains, contains-subset,
}
use drf_enterprise_informati.Core.PyText.{words}
use drf_enterprise_informati.IamOauth.Model.{Client, RefreshToken, Db, get_token}
use drf_enterprise_informati.IamOauth.Codes.{Settings, Outside, Fresh, new_refresh_token}
use drf_enterprise_informati.IamOauth.Refresh.{
  Moments, TokenData, granted_scope, consume_refresh_token,
}
use drf_enterprise_informati.IamOauth.Refresh.Rotating.{rotate_iff}

-- Every scope of the first text is one of the second's.
abbrev pub IsNarrower : String → String → Type 0
IsNarrower a b =
    (scope : String) → contains scope (words a) ≡ true → contains scope (words b) ≡ true

module _ (outside : Outside) (settings : Settings) where
  -- A request that presented the token of the stored row `row` succeeded and issued `next`.
  pub data Rotation (row next : RefreshToken) : Type 0 where
    rotation :
        (token : String) (client : Client) (scope : String) (t : Moments) (fresh : Fresh) (db : Db)
        (granted : TokenData)
        → get_token token db.tokens ≡ ok row
        → (consume_refresh_token outside settings token client scope t fresh db).0 ≡ ok granted
        → granted.new_refresh_token ≡ next
        → Rotation row next

  -- A chain of rotations.
  pub data Descends (row : RefreshToken) : RefreshToken → Type 0 where
    here : Descends row row
    later : {mid next : RefreshToken} → Descends row mid → Rotation mid next → Descends row next

  -- Every rotation that succeeds is one of the relation.
  pub rotated-Rotation :
      (token : String) (client : Client) (scope : String) (t : Moments) (fresh : Fresh) (db : Db)
      (granted : TokenData)
      → (consume_refresh_token outside settings token client scope t fresh db).0 ≡ ok granted
      → (row : RefreshToken) × Rotation row granted.new_refresh_token
  rotated-Rotation token client scope t fresh db granted h =
      let (c, g) = (rotate_iff outside settings token client scope t fresh db).0 granted h in
      (c.row, rotation token client scope t fresh db granted c.found h refl)

  Rotation-IsNarrower :
      (row next : RefreshToken)
      → Rotation row next
      → IsNarrower next.scope row.scope
        × (next.tenant_id ≡ row.tenant_id)
        × (next.user_id ≡ row.user_id)
        × (next.client ≡ row.client)
  unfolding new_refresh_token
  Rotation-IsNarrower row next (rotation token client scope t fresh db granted found h e') =
      let (c, g) = (rotate_iff outside settings token client scope t fresh db).0 granted h in
      let e : c.row ≡ row = ok_injective c.row row (sym c.found ∙ found) in
      (
        λ s m. rw (← e) (
            contains-subset s (words (granted_scope c.row scope)) (words c.row.scope)
              c.acceptable.narrower (rw (g.next) at (rw (← e') at m))),
        rw (← e', ← e) (rw g.next),
        rw (← e', ← e) (rw g.next),
        rw (← e', ← e) (rw g.next (sym c.acceptable.owned)),
      )

  -- However often a refresh token is rotated, every token that descends from it has only scopes
  -- that it had itself, and its tenant, its user and its client.
  pub Descends-IsNarrower :
      {row next : RefreshToken}
      → Descends row next
      → IsNarrower next.scope row.scope
        × (next.tenant_id ≡ row.tenant_id)
        × (next.user_id ≡ row.user_id)
        × (next.client ≡ row.client)
  Descends-IsNarrower here = (λ s m. m, refl, refl, refl)
  Descends-IsNarrower (later {mid = mid} {next = next} d r) =
      let (narrow, tenant, user, client) = Descends-IsNarrower d in
      let (narrow', tenant', user', client') = Rotation-IsNarrower mid next r in
      (λ s m. narrow s (narrow' s m), cc, cc, cc)
