-- ===== src/IamAuth/Sessions.antt =====
-- apps/iam_auth/serializers.py: the limit on a user's concurrent sessions. The tables of
-- `rest_framework_simplejwt` are lists; of a blacklisted token only the key matters.
pub mod Limits
mod Tests
use drf_enterprise_informati.Prelude.{
  ℕ, ◌-◌, String, Bool, true, false, ◌&&◌, not, List, [], ◌∷◌, ◌==◌, leb, nat_eq, length, contains,
  take, where_, if◌then◌else◌,
}

pub record OutstandingToken : Type 0 where
  pub pk : String
  pub user : String
  pub created_at : ℕ

-- The two tables, the blacklist by the tokens' keys.
pub record Tokens : Type 0 where
  pub outstanding : List OutstandingToken
  pub blacklisted : List String

insert_by_created : OutstandingToken → List OutstandingToken → List OutstandingToken
insert_by_created t [] = t ∷ []
insert_by_created t (u ∷ us) =
    let rest = insert_by_created t us in
    if leb t.created_at u.created_at then t ∷ u ∷ us else u ∷ rest

-- `order_by("created_at")`
unfoldable pub order_by_created : List OutstandingToken → List OutstandingToken
unfolding insert_by_created
order_by_created [] = []
order_by_created (t ∷ ts) = insert_by_created t (order_by_created ts)

abbrev pub is_active : String → List String → OutstandingToken → Bool
is_active user blacklisted t = t.user == user && not (contains t.pk blacklisted)

-- `active_tokens`
unfoldable pub active_tokens : String → Tokens → List OutstandingToken
unfolding order_by_created
active_tokens user tokens =
    where_ (is_active user tokens.blacklisted) (order_by_created tokens.outstanding)

-- `BlacklistedToken.objects.get_or_create`, for each of the oldest
abbrev pub blacklist_each : List OutstandingToken → List String → List String
blacklist_each [] blacklisted = blacklisted
blacklist_each (t ∷ ts) blacklisted =
    let rest = blacklist_each ts blacklisted in if contains t.pk rest then rest else t.pk ∷ rest

-- `_enforce_session_limit`; the subtraction stops at 0, where the code returns
unfoldable pub enforce_session_limit : ℕ → String → Tokens → Tokens
unfolding active_tokens
enforce_session_limit limit user tokens =
    if nat_eq limit 0
    then tokens
    else let excess = length (active_tokens user tokens) - limit in
      if leb excess 0 then tokens else record tokens {
        blacklisted = blacklist_each (take excess (active_tokens user tokens)) tokens.blacklisted;
      }
