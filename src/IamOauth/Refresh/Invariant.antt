-- ===== src/IamOauth/Refresh/Invariant.antt =====
-- What a rotation keeps of the table of refresh tokens.
use drf_enterprise_informati.Prelude.{
  String, ◌≡◌, ◌≢◌, refl, sym, ◌∙◌, List, ◌∷◌, arith, Result, ok, err, Bool-cases, inl, inr, eq_iff,
}
use drf_enterprise_informati.IamOauth.Model.{Client, RefreshToken, Db, Error, get_token}
use drf_enterprise_informati.IamOauth.Model.Rows.{
  DistinctTokens, DistinctTokens-save, get_token-by_pk, get_token-Lacks,
}
use drf_enterprise_informati.IamOauth.Codes.{
  Settings, Outside, Fresh, issue_refresh_token, new_refresh_token,
}
use drf_enterprise_informati.IamOauth.Refresh.{
  Moments, TokenData, replaced, check_token, link, rotate, rotate_checked, rotate_found,
  consume_refresh_token,
}
use drf_enterprise_informati.IamOauth.Refresh.Rotating.{IsFresh, CanRotate, IsRotated, rotate_iff}
use drf_enterprise_informati.IamOauth.Refresh.Chain.Order.{Ordered, Ordered-cons, Ordered-link}

-- The primary keys of the rows differ, and every link leads to a row that is newer.
pub record IsWellFormed (rows : List RefreshToken) : Type 0 where
  pub distinct : DistinctTokens rows
  pub ordered : Ordered rows

module _ (outside : Outside) (settings : Settings) (token : String) (client : Client)
    (scope : String) (t : Moments) (fresh : Fresh) (db : Db) where
  abbrev outcome : Result Error TokenData × Db
  outcome = consume_refresh_token outside settings token client scope t fresh db

  unlinked :
      (row : RefreshToken) (e : Error)
      → (rotate outside settings client row scope t fresh db).0 ≡ err e
      → (rotate outside settings client row scope t fresh db).1 ≡ db
  unfolding rotate link issue_refresh_token
  unlinked row e h = elim (Bool-cases (outside.is_uuid row.user_id)) [
    | inl u ↦ absurd (cc (rw u at h))
    | inr u ↦ rw u refl
  ]

  unchecked :
      (row : RefreshToken) (r : Result Error (Unit {0})) (e : Error)
      → (rotate_checked outside settings client row scope t fresh db r).0 ≡ err e
      → (rotate_checked outside settings client row scope t fresh db r).1 ≡ db
  unfolding rotate_checked
  unchecked row (err x) e h = refl
  unchecked row (ok u) e h = unlinked row e h

  unfound :
      (r : Result Error RefreshToken) (e : Error)
      → (rotate_found outside settings client scope t fresh db r).0 ≡ err e
      → (rotate_found outside settings client scope t fresh db r).1 ≡ db
  unfolding rotate_found
  unfound (err x) e h = refl
  unfound (ok row) e h = unchecked row (check_token row client scope t.checking) e h

  -- A rotation that fails changes nothing.
  refused_unchanged : (e : Error) → outcome.0 ≡ err e → outcome.1 ≡ db
  unfolding consume_refresh_token
  refused_unchanged e h = unfound (get_token token db.tokens) e h

  rotated-IsWellFormed :
      (granted : TokenData) (c : CanRotate outside settings token client scope t fresh db)
      (after : Db)
      → IsRotated outside settings token client scope t fresh db c.row granted after
      → IsFresh fresh db.tokens
      → IsWellFormed db.tokens
      → IsWellFormed after.tokens
  unfolding new_refresh_token
  rotated-IsWellFormed granted c after g f w =
      let next = granted.new_refresh_token in
      let named : next.pk ≡ fresh.pk = rw g.next refl in
      let apart : next.pk ≢ c.row.pk =
        λ e. get_token-Lacks token fresh.pk c.row db.tokens c.found f.pk (sym e ∙ named) in
      let (old, there) = get_token-by_pk token c.row db.tokens c.found in
      rw g.tokens (record {
        distinct =
            DistinctTokens-save (replaced c.row next t.revoking) (next ∷ db.tokens)
              (rw named f.pk, w.distinct);
        ordered =
            Ordered-link (replaced c.row next t.revoking) next old db.tokens
              (Ordered-cons next db.tokens (rw g.next refl) w.ordered) refl apart
              (ground (arith, eq_iff next.pk c.row.pk, there));
      })

  -- A request for a rotation keeps the table well formed, whether it succeeds or not, and changes
  -- nothing if it fails. The values drawn for the new row are in no older row.
  pub rotation_keeps :
      IsFresh fresh db.tokens
      → IsWellFormed db.tokens
      → IsWellFormed outcome.1.tokens × ((e : Error) → outcome.0 ≡ err e → outcome.1 ≡ db)
  rotation_keeps f w = (go outcome.0 refl, refused_unchanged)
    where
      go : (r : Result Error TokenData) → outcome.0 ≡ r → IsWellFormed outcome.1.tokens
      go (err e) h = rw (refused_unchanged e h) w
      go (ok granted) h =
          let (c, g) = (rotate_iff outside settings token client scope t fresh db).0 granted h in
          rotated-IsWellFormed granted c outcome.1 g f w
