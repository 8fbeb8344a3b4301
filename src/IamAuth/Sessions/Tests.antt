-- ===== src/IamAuth/Sessions/Tests.antt =====
-- Three sessions under a limit of two.
use drf_enterprise_informati.Prelude.{ℕ, String, ◌≡◌, refl, [], ◌∷◌}
use drf_enterprise_informati.IamAuth.Sessions.{OutstandingToken, Tokens, enforce_session_limit}

abbrev token : String → ℕ → OutstandingToken
token pk created_at = record { pk = pk; user = "u1"; created_at = created_at }

abbrev tokens : Tokens
tokens = record { outstanding = token "b" 20 ∷ token "c" 30 ∷ token "a" 10 ∷ []; blacklisted = [] }

oldest_goes : (enforce_session_limit 2 "u1" tokens).blacklisted ≡ "a" ∷ []
unfolding enforce_session_limit
oldest_goes = refl
