-- ===== src/IamOauth/Refresh/Chain/Order.antt =====
-- The rows of refresh tokens, newest first: a token is replaced by one that is nearer to the head,
-- so that a chain is no longer than the table.
use drf_enterprise_informati.Prelude.{
  ℕ, zero, suc, ◌+◌, ◌≤◌, ◌<◌, String, ◌≡◌, ◌≢◌, refl, true, none, some, List, [], ◌∷◌, arith, ◌==◌,
  eq_iff, if◌then◌else◌, Bool-cases, Option-cases, inl, inr, length, is_some,
}
use drf_enterprise_informati.IamOauth.Model.{RefreshToken, Db, save_token}
use drf_enterprise_informati.IamOauth.Refresh.{by_pk, revoke_refresh_token_chain}
use mathlib.Core.Path.{subst}
use drf_enterprise_informati.IamOauth.Refresh.Chain.{
  by_pk-save_self, by_pk-save_ne, link_at, is_revoked_at, follow, walk_reaches,
}

-- The place of a primary key, counted from the head.
unfoldable pub index : String → List RefreshToken → ℕ
index k [] = 0
index k (r ∷ rows) = let rest = index k rows in if r.pk == k then 0 else suc rest

-- Each link leads nearer to the head.
pub record Ordered (rows : List RefreshToken) : Type 0 where
  pub nearer : (k q : String) → link_at k rows ≡ some q → index q rows < index k rows

index-le : (k : String) (rows : List RefreshToken) → index k rows ≤ length rows
unfolding index
index-le k [] = omega arith
index-le k (r ∷ rows) = ground (arith, index-le k rows)

follow_short :
    (n : ℕ) (k q : String) (rows : List RefreshToken)
    → Ordered rows
    → follow n k rows ≡ some q
    → index q rows + n ≤ index k rows
unfolding follow
follow_short zero k q rows o h = ground arith
follow_short (suc n) k q rows o h = elim (Option-cases (link_at k rows)) [
  | inl e ↦ absurd (ground arith)
  | inr (m, e) ↦ omega (arith, o.nearer k m e, follow_short n m q rows o (ground arith))
]

index-save :
    (k : String) (new : RefreshToken) (rows : List RefreshToken)
    → index k (save_token new rows) ≡ index k rows
unfolding index save_token
index-save k new [] = refl
index-save k new (r ∷ rows) = ground (arith, index-save k new rows, eq_iff r.pk new.pk)

pub Ordered-cons :
    (new : RefreshToken) (rows : List RefreshToken)
    → new.replaced_by ≡ none
    → Ordered rows
    → Ordered (new ∷ rows)
unfolding index
Ordered-cons new rows e o = record { nearer = λ k q h. ground (arith, o.nearer k q) }

head_nearer :
    (new next old : RefreshToken) (rows : List RefreshToken) (k q : String)
    → new.replaced_by ≡ some next.pk
    → next.pk ≢ new.pk
    → by_pk new.pk (next ∷ rows) ≡ some old
    → new.pk ≡ k
    → link_at k (save_token new (next ∷ rows)) ≡ some q
    → index q (next ∷ rows) < index k (next ∷ rows)
unfolding index
head_nearer new next old rows k q linked apart found same h =
    let row : by_pk k (save_token new (next ∷ rows)) ≡ some new =
      subst (λ i. by_pk i (save_token new (next ∷ rows)) ≡ some new) same
        (by_pk-save_self new old (next ∷ rows) found) in
    let to : next.pk ≡ q = ground (arith, row) in ground (arith, eq_iff next.pk q, eq_iff next.pk k)

-- A row that is saved with a link to the newest row keeps the order.
pub Ordered-link :
    (new next old : RefreshToken) (rows : List RefreshToken)
    → Ordered (next ∷ rows)
    → new.replaced_by ≡ some next.pk
    → next.pk ≢ new.pk
    → by_pk new.pk (next ∷ rows) ≡ some old
    → Ordered (save_token new (next ∷ rows))
Ordered-link new next old rows o linked apart found = record {
  nearer = λ k q h.
      rw (index-save k new (next ∷ rows)) (rw (index-save q new (next ∷ rows)) (step k q h));
}
  where
    step :
        (k q : String)
        → link_at k (save_token new (next ∷ rows)) ≡ some q
        → index q (next ∷ rows) < index k (next ∷ rows)
    step k q h = elim (Bool-cases (new.pk == k)) [
      | inl e ↦ head_nearer new next old rows k q linked apart found ((eq_iff new.pk k).0 e) h
      | inr e ↦
          o.nearer k q
            (rw (by_pk-save_ne k new (next ∷ rows) (λ same. ground (arith, eq_iff new.pk k))) at h)
    ]

-- The service leaves every token revoked that the given stored record leads to by replacements,
-- itself included, however many there are, if each link leads to a newer row: the loop ends at
-- the end of the chain.
pub chain_revoked :
    (now n : ℕ) (row : RefreshToken) (db : Db) (k : String)
    → Ordered db.tokens
    → by_pk row.pk db.tokens ≡ some row
    → is_some (by_pk k db.tokens) ≡ true
    → follow n row.pk db.tokens ≡ some k
    → is_revoked_at k (revoke_refresh_token_chain now row db).tokens ≡ true
unfolding revoke_refresh_token_chain
chain_revoked now n row db k o here there path =
    walk_reaches n (suc (length db.tokens)) now row db.tokens k
      (omega (arith, follow_short n row.pk k db.tokens o path, index-le row.pk db.tokens)) here
      there path
