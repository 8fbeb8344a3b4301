-- ===== src/IamAuth/Sessions/Limits.antt =====
-- Which sessions the limit ends.
use drf_enterprise_informati.Prelude.{
  ℕ, suc, ◌-◌, ◌≤◌, String, ◌≡◌, refl, sym, ap, ◌∙◌, ◌≢◌, Bool, true, false, ◌&&◌, not, List, [],
  ◌∷◌, ◌==◌, arith, eq_iff, eq_refl, leb, nat_eq, length, contains, take, drop, length-drop, where_,
  where-cong, where_true, where_false, zero, any_of, ◌||◌, All, Bool-cases, inl, inr,
}
use drf_enterprise_informati.IamAuth.Sessions.{
  OutstandingToken, Tokens, insert_by_created, order_by_created, is_active, active_tokens,
  blacklist_each, enforce_session_limit,
}

-- No two rows have one key.
abbrev pub HasKeys : List OutstandingToken → Type 0
HasKeys [] = Unit
HasKeys (t ∷ ts) = All (λ u. (u.pk == t.pk) ≡ false) ts × HasKeys ts

insert_All :
    (P : OutstandingToken → Type 0) (t : OutstandingToken) (ts : List OutstandingToken)
    → P t
    → All P ts
    → All P (insert_by_created t ts)
unfolding insert_by_created
insert_All P t [] p h = (p, tt)
insert_All P t (u ∷ us) p (q, h) = elim (Bool-cases (leb t.created_at u.created_at)) [
  | inl e ↦ rw (e) (p, (q, h))
  | inr e ↦ rw (e) (q, insert_All P t us p h)
]

ne_sym : (a b : String) → (a == b) ≡ false → (b == a) ≡ false
ne_sym a b h = ground (arith, eq_iff a b, eq_iff b a)

insert-HasKeys :
    (t : OutstandingToken) (ts : List OutstandingToken)
    → All (λ u. (u.pk == t.pk) ≡ false) ts
    → HasKeys ts
    → HasKeys (insert_by_created t ts)
unfolding insert_by_created
insert-HasKeys t [] fresh h = (tt, tt)
insert-HasKeys t (u ∷ us) (ne, fresh) (others, h) =
    elim (Bool-cases (leb t.created_at u.created_at)) [
      | inl e ↦ rw (e) ((ne, fresh), (others, h))
      | inr e ↦ rw (e) (
        insert_All (λ v. (v.pk == u.pk) ≡ false) t us (ne_sym u.pk t.pk ne) others,
        insert-HasKeys t us fresh h,
      )
    ]

order_All :
    (P : OutstandingToken → Type 0) (ts : List OutstandingToken)
    → All P ts
    → All P (order_by_created ts)
unfolding order_by_created
order_All P [] h = tt
order_All P (t ∷ ts) (p, h) = insert_All P t (order_by_created ts) p (order_All P ts h)

order-HasKeys : (ts : List OutstandingToken) → HasKeys ts → HasKeys (order_by_created ts)
unfolding order_by_created
order-HasKeys [] h = tt
order-HasKeys (t ∷ ts) (fresh, h) =
    insert-HasKeys t (order_by_created ts) (order_All (λ u. (u.pk == t.pk) ≡ false) ts fresh)
      (order-HasKeys ts h)

contains-blacklist_each :
    (k : String) (ts : List OutstandingToken) (old : List String)
    → contains k (blacklist_each ts old) ≡ (any_of (λ t. t.pk == k) ts || contains k old)
contains-blacklist_each k [] old = refl
contains-blacklist_each k (t ∷ ts) old =
    ground
      (arith, contains-blacklist_each k ts old, contains-blacklist_each t.pk ts old, eq_iff t.pk k)

module _ (user : String) (old : List String) where
  -- The test after the oldest are blacklisted.
  left : List OutstandingToken → OutstandingToken → Bool
  left gone t = is_active user old t && not (any_of (λ u. u.pk == t.pk) gone)

  left_nil : (ts : List OutstandingToken) → All (λ t. left [] t ≡ is_active user old t) ts
  unfolding left
  left_nil [] = tt
  left_nil (t ∷ ts) = (ground arith, left_nil ts)

  left_cons :
      (t : OutstandingToken) (gone ts : List OutstandingToken)
      → All (λ u. (u.pk == t.pk) ≡ false) ts
      → All (λ u. left (t ∷ gone) u ≡ left gone u) ts
  unfolding left
  left_cons t gone [] h = tt
  left_cons t gone (u ∷ us) (ne, h) = (ground (arith, ne_sym u.pk t.pk ne), left_cons t gone us h)

  left_self : (t : OutstandingToken) (gone : List OutstandingToken) → left (t ∷ gone) t ≡ false
  unfolding left
  left_self t gone = ground (arith, eq_refl t.pk)

  left_inactive :
      (t : OutstandingToken) (gone : List OutstandingToken)
      → is_active user old t ≡ false
      → left gone t ≡ false
  unfolding left
  left_inactive t gone h = ground arith

  left-drop :
      (n : ℕ) (ts : List OutstandingToken)
      → HasKeys ts
      → where_ (left (take n (where_ (is_active user old) ts))) ts
        ≡ drop n (where_ (is_active user old) ts)
  left-drop zero ts h = where-cong (left []) (is_active user old) ts (left_nil ts)
  left-drop (suc n) [] h = refl
  left-drop (suc n) (t ∷ ts) (fresh, h) =
      let p = is_active user old in
      let later = where_ p ts in
      elim (Bool-cases (p t)) [
        | inl e ↦
            let first : where_ p (t ∷ ts) ≡ t ∷ later = where_true p t ts e in
            let gone = take n later in
            ap (λ l. where_ (left (take (suc n) l)) (t ∷ ts)) first
            ∙ where_false (left (t ∷ gone)) t ts (left_self t gone)
            ∙ where-cong (left (t ∷ gone)) (left gone) ts (left_cons t gone ts fresh)
            ∙ left-drop n ts h
            ∙ sym (ap (drop (suc n)) first)
        | inr e ↦
            let none_first : where_ p (t ∷ ts) ≡ later = where_false p t ts e in
            ap (λ l. where_ (left (take (suc n) l)) (t ∷ ts)) none_first
            ∙ where_false (left (take (suc n) later)) t ts (left_inactive t (take (suc n) later) e)
            ∙ left-drop (suc n) ts h
            ∙ sym (ap (drop (suc n)) none_first)
      ]

  after_each :
      (gone ts : List OutstandingToken)
      → All (λ t. is_active user (blacklist_each gone old) t ≡ left gone t) ts
  unfolding left
  after_each gone [] = tt
  after_each gone (t ∷ ts) =
      (ground (arith, contains-blacklist_each t.pk gone old), after_each gone ts)

module _ (limit : ℕ) (user : String) (tokens : Tokens) where
  excess : ℕ
  excess = length (active_tokens user tokens) - limit

  enforced_none : leb excess 0 ≡ true → enforce_session_limit limit user tokens ≡ tokens
  unfolding enforce_session_limit excess
  enforced_none e = elim (Bool-cases (nat_eq limit 0)) [
    | inl z ↦ rw (z) refl
    | inr z ↦ rw (z, e) refl
  ]

  enforced_some :
      limit ≢ 0
      → leb excess 0 ≡ false
      → enforce_session_limit limit user tokens ≡ record tokens {
        blacklisted = blacklist_each (take excess (active_tokens user tokens)) tokens.blacklisted;
      }
  unfolding enforce_session_limit excess
  enforced_some some_limit e = let z : nat_eq limit 0 ≡ false = ground arith in rw (z, e) refl

  blacklisted_drop :
      (n : ℕ)
      → HasKeys tokens.outstanding
      → active_tokens user (record tokens {
        blacklisted = blacklist_each (take n (active_tokens user tokens)) tokens.blacklisted;
      })
        ≡ drop n (active_tokens user tokens)
  unfolding active_tokens
  blacklisted_drop n keys =
      let ordered = order_by_created tokens.outstanding in
      let gone = take n (where_ (is_active user tokens.blacklisted) ordered) in
      where-cong (is_active user (blacklist_each gone tokens.blacklisted))
        (left user tokens.blacklisted gone) ordered
        (after_each user tokens.blacklisted gone ordered)
      ∙ left-drop user tokens.blacklisted n ordered (order-HasKeys tokens.outstanding keys)

  -- What the limit ends: of the user's active sessions, ordered by their creation, the first ones,
  -- as many as there are too many, and no other.
  pub enforced_drop :
      HasKeys tokens.outstanding
      → limit ≢ 0
      → active_tokens user (enforce_session_limit limit user tokens)
        ≡ drop (length (active_tokens user tokens) - limit) (active_tokens user tokens)
  unfolding excess
  enforced_drop keys some_limit = elim (Bool-cases (leb excess 0)) [
    | inl e ↦
        let zero_left : excess ≡ 0 = ground arith in
        ap (active_tokens user) (enforced_none e)
        ∙ sym (ap (λ n. drop n (active_tokens user tokens)) zero_left)
    | inr e ↦ ap (active_tokens user) (enforced_some some_limit e) ∙ blacklisted_drop excess keys
  ]

  -- The bound: where there is a limit, at most that many of the user's sessions are active after it
  -- is enforced, and exactly that many if there were as many before.
  pub enforced_bound :
      HasKeys tokens.outstanding
      → limit ≢ 0
      → (length (active_tokens user (enforce_session_limit limit user tokens)) ≤ limit)
        × (limit ≤ length (active_tokens user tokens)
            → length (active_tokens user (enforce_session_limit limit user tokens)) ≡ limit)
  enforced_bound keys some_limit =
      let before = active_tokens user tokens in
      let count =
        ap length (enforced_drop keys some_limit) ∙ length-drop (length before - limit) before in
      (omega (arith, count), λ enough. omega (arith, count))
