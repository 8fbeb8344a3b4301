-- ===== src/IamOauth/Refresh/Chain.antt =====
-- What the walk along `replaced_by` revokes, and that its fuel is enough.
pub mod Order
use drf_enterprise_informati.Prelude.{
  ℕ, zero, suc, ◌+◌, ◌≤◌, ◌<◌, String, ◌≡◌, ◌≢◌, refl, sym, ◌∙◌, ap, Bool, true, false, not, Option,
  none, some, List, [], ◌∷◌, arith, ◌==◌, eq_iff, eq_refl, if◌then◌else◌, Bool-cases, Option-cases,
  inl, inr, length, find_first, is_some,
}
use mathlib.Core.Path.{subst}
use drf_enterprise_informati.IamOauth.Model.{RefreshToken, Db, save_token, save_row}
use drf_enterprise_informati.IamOauth.Refresh.{
  revoked, mark, by_pk, successor, walk, revoke_refresh_token_chain,
}

-- Whether the row with this primary key is there and revoked.
abbrev revoked_row : Option RefreshToken → Bool
revoked_row none = false
revoked_row (some r) = r.is_revoked

abbrev pub is_revoked_at : String → List RefreshToken → Bool
is_revoked_at k rows = revoked_row (by_pk k rows)

abbrev link_row : Option RefreshToken → Option String
link_row none = none
link_row (some r) = r.replaced_by

-- The primary key that the row with this primary key was replaced by.
abbrev pub link_at : String → List RefreshToken → Option String
link_at k rows = link_row (by_pk k rows)

abbrev then_follow : (String → Option String) → Option String → Option String
then_follow f none = none
then_follow f (some q) = f q

-- The key that is reached from a key in so many replacements.
unfoldable pub follow : ℕ → String → List RefreshToken → Option String
follow zero k rows = some k
follow (suc n) k rows = then_follow (λ q. follow n q rows) (link_at k rows)

by_pk-pk :
    (k : String) (rows : List RefreshToken) (r : RefreshToken) → by_pk k rows ≡ some r → r.pk ≡ k
by_pk-pk k [] r h = cc
by_pk-pk k (x ∷ rows) r h = elim (Bool-cases (x.pk == k)) [
  | inl e ↦ (let same : x ≡ r = ground arith in rw (← same) ((eq_iff x.pk k).0 e))
  | inr e ↦ by_pk-pk k rows r (ground arith)
]

pub by_pk-save_ne :
    (k : String) (new : RefreshToken) (rows : List RefreshToken)
    → new.pk ≢ k
    → by_pk k (save_token new rows) ≡ by_pk k rows
unfolding save_token
by_pk-save_ne k new [] h = refl
by_pk-save_ne k new (x ∷ rows) h =
    let ih = by_pk-save_ne k new rows h in
    ground (arith, eq_iff new.pk k, eq_iff x.pk k, eq_iff x.pk new.pk)

pub by_pk-save_self :
    (new old : RefreshToken) (rows : List RefreshToken)
    → by_pk new.pk rows ≡ some old
    → by_pk new.pk (save_token new rows) ≡ some new
unfolding save_token
by_pk-save_self new old [] h = cc
by_pk-save_self new old (x ∷ rows) h = elim (Bool-cases (x.pk == new.pk)) [
  | inl e ↦ ground (arith, eq_refl new.pk)
  | inr e ↦ ground (arith, by_pk-save_self new old rows (ground arith))
]

module _ (now : ℕ) (row : RefreshToken) (rows : List RefreshToken)
    (here : by_pk row.pk rows ≡ some row) where
  by_pk-mark :
      (k : String)
      → by_pk k (mark now row rows) ≡ (
          if row.is_revoked
          then by_pk k rows
          else if row.pk == k
          then some (revoked row now)
          else by_pk k rows)
  by_pk-mark k = ground (
    arith,
    by_pk-save_ne k (revoked row now) rows,
    by_pk-save_self (revoked row now) row rows here,
    eq_iff row.pk k,
  )

  -- Marking a row moves no link, and unmarks none.
  link-mark : (k : String) → link_at k (mark now row rows) ≡ link_at k rows
  link-mark k = ground (arith, by_pk-mark k, eq_iff row.pk k)

  mark_keeps :
      (k : String) → is_revoked_at k rows ≡ true → is_revoked_at k (mark now row rows) ≡ true
  mark_keeps k h = ground (arith, by_pk-mark k)

  mark_self : is_revoked_at row.pk (mark now row rows) ≡ true
  mark_self = ground (arith, by_pk-mark row.pk, eq_refl row.pk)

  follow-mark : (n : ℕ) (k : String) → follow n k (mark now row rows) ≡ follow n k rows
  unfolding follow
  follow-mark zero k = refl
  follow-mark (suc n) k = rw (link-mark k) (elim (Option-cases (link_at k rows)) [
    | inl e ↦ ground arith
    | inr (q, e) ↦ ground (arith, follow-mark n q)
  ])

  -- The row that the loop goes on with is the one that its key names.
  next_here :
      (next : RefreshToken)
      → successor row (mark now row rows) ≡ some next
      → (link_at row.pk rows ≡ some next.pk) × (by_pk next.pk (mark now row rows) ≡ some next)
  next_here next h = elim (Option-cases row.replaced_by) [
    | inl e ↦ absurd (ground arith)
    | inr (q, e) ↦
        (let found : by_pk q (mark now row rows) ≡ some next = ground arith in
          let named : next.pk ≡ q = by_pk-pk q (mark now row rows) next found in
          (
            rw (here, e) (ap some (sym named)),
            subst (λ p. by_pk p (mark now row rows) ≡ some next) (sym named) found,
          ))
  ]

successor_link :
    (row : RefreshToken) (q : String) (rows : List RefreshToken)
    → row.replaced_by ≡ some q
    → successor row rows ≡ by_pk q rows
successor_link row q rows e = ground arith

-- The row at hand is the one that its key names.
abbrev pub IsCurrent : Option RefreshToken → List RefreshToken → Type 0
IsCurrent none rows = Unit
IsCurrent (some r) rows = by_pk r.pk rows ≡ some r

module _ (now : ℕ) (row : RefreshToken) (rows : List RefreshToken)
    (here : by_pk row.pk rows ≡ some row) where
  next-IsCurrent : IsCurrent (successor row (mark now row rows)) (mark now row rows)
  next-IsCurrent =
      go (successor row (mark now row rows)) (λ next e. (next_here now row rows here next e).1)
    where
      go :
          (o : Option RefreshToken)
          → ((next : RefreshToken) → o ≡ some next → by_pk next.pk (mark now row rows) ≡ some next)
          → IsCurrent o (mark now row rows)
      go none f = tt
      go (some next) f = f next refl

  -- A link that leads to a row leads the loop there.
  next_exists :
      (q : String)
      → link_at row.pk rows ≡ some q
      → is_some (by_pk q rows) ≡ true
      → (next : RefreshToken) × (successor row (mark now row rows) ≡ some next) × (next.pk ≡ q)
  next_exists q h there =
      let linked : row.replaced_by ≡ some q = ground arith in
      elim (Option-cases (by_pk q (mark now row rows))) [
        | inl e ↦ absurd (ground (arith, by_pk-mark now row rows here q))
        | inr (next, e) ↦ (
          next,
          successor_link row q (mark now row rows) linked ∙ e,
          by_pk-pk q (mark now row rows) next e,
        )
      ]

  mark_there :
      (k : String) → is_some (by_pk k rows) ≡ true → is_some (by_pk k (mark now row rows)) ≡ true
  mark_there k h = ground (arith, by_pk-mark now row rows here k)

walk_keeps :
    (fuel now : ℕ) (current : Option RefreshToken) (rows : List RefreshToken) (k : String)
    → IsCurrent current rows
    → is_revoked_at k rows ≡ true
    → is_revoked_at k (walk fuel now current rows) ≡ true
unfolding walk
walk_keeps zero now current rows k here h = h
walk_keeps (suc fuel) now none rows k here h = h
walk_keeps (suc fuel) now (some row) rows k here h =
    walk_keeps fuel now (successor row (mark now row rows)) (mark now row rows) k
      (next-IsCurrent now row rows here) (mark_keeps now row rows here k h)

-- A key that leads on to a row is the key of a row.
follow_there :
    (n : ℕ) (q k : String) (rows : List RefreshToken)
    → follow n q rows ≡ some k
    → is_some (by_pk k rows) ≡ true
    → is_some (by_pk q rows) ≡ true
unfolding follow
follow_there zero q k rows path there = ground arith
follow_there (suc n) q k rows path there = ground arith

-- With fuel above the distance, every row that is reached from the start is revoked.
walk_reaches :
    (n fuel now : ℕ) (row : RefreshToken) (rows : List RefreshToken) (k : String)
    → n < fuel
    → by_pk row.pk rows ≡ some row
    → is_some (by_pk k rows) ≡ true
    → follow n row.pk rows ≡ some k
    → is_revoked_at k (walk fuel now (some row) rows) ≡ true
unfolding walk follow
walk_reaches n zero now row rows k h here there path = absurd (omega arith)
walk_reaches zero (suc fuel) now row rows k h here there path =
    walk_keeps fuel now (successor row (mark now row rows)) (mark now row rows) k
      (next-IsCurrent now row rows here) (ground (arith, mark_self now row rows here))
walk_reaches (suc n) (suc fuel) now row rows k h here there path =
    elim (Option-cases (link_at row.pk rows)) [
      | inl e ↦ absurd (ground arith)
      | inr (q, e) ↦
          (let onward : follow n q rows ≡ some k = ground arith in
            let (next, found, named) =
              next_exists now row rows here q e (follow_there n q k rows onward there) in
            rw found (
              walk_reaches n fuel now next (mark now row rows) k (omega arith)
                (next_here now row rows here next found).1 (mark_there now row rows here k there)
                (rw named (follow-mark now row rows here n q ∙ onward))))
    ]
