-- ===== src/Core/RateLimit/Tests.antt =====
-- The middleware on a concrete cache.
use Prim.Native.Nat.{min, max}
use drf_enterprise_informati.Prelude.{
  ℕ, String, ◌≡◌, ◌≢◌, refl, true, none, some, List, [], ◌∷◌, arith, eq_iff,
}
use drf_enterprise_informati.Core.Cache.Table.{Table, table}
use drf_enterprise_informati.Core.PyText.{pos, to_nat}
use drf_enterprise_informati.Core.RateLimit.{
  Config, Request, view_class, no_resolver_match, Moments, throttled, parse_rate, key_of, is_exempt,
  is_rate_limited, retry_after, call,
}
use drf_enterprise_informati.Core.RateLimit.Window.{admit_all, window_admits}

abbrev at : ℕ → Moments
at now = record { adding = now; incrementing = now; resetting = now; asking = now }

abbrev no_keys : Table
no_keys = []

window_admits_example :
    (admit_all table "k" (pos 2) 60 (at 0 ∷ at 1 ∷ at 59 ∷ []) no_keys).0
    ≡ min (max 1 (to_nat (pos 2))) 3
window_admits_example =
    window_admits table "k" (pos 2) 60 (at 0) (at 1 ∷ at 59 ∷ []) no_keys refl
      ((refl, refl), ((refl, refl), tt))

apart : ◌≢◌ {A = String} "j" "k"
apart h = absurd (ground (arith, eq_iff "j" "k"))

abbrev one_counted : Table
one_counted = ("j", (1, some 60)) ∷ []

abbrev two_a_minute : Config
two_a_minute = record {
  enabled = some true;
  default_rate = some "2/minute";
  skip_paths = some ("/health" ∷ []);
  use_boundary_scope = some true;
}

abbrev tenant : List (String × String)
tenant = ("tenant_id", "t1") ∷ []

abbrev request_of : String → Request
request_of pk = record {
  path = "/api/";
  user = some pk;
  client_ip = "10.0.0.1";
  view = view_class none;
}

abbrev full : Table
full = (key_of two_a_minute tenant (request_of "u1"), (2, some 60)) ∷ []

refuses_third : (call table two_a_minute tenant (request_of "u1") (at 20) full).0 ≡ throttled 40
unfolding call key_of parse_rate is_exempt is_rate_limited retry_after
refuses_third = refl

abbrev from_elsewhere : Request
from_elsewhere = record {
  path = "/api/";
  user = some "u1";
  client_ip = "10.0.0.2";
  view = no_resolver_match;
}

same_key : key_of two_a_minute tenant (request_of "u1") ≡ key_of two_a_minute tenant from_elsewhere
unfolding key_of
same_key = refl
