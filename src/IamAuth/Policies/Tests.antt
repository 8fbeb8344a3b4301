-- ===== src/IamAuth/Policies/Tests.antt =====
-- A login to the only tenant of a user, with a limit of one session.
use drf_enterprise_informati.Prelude.{
  ℕ, ◌≤◌, String, ◌≡◌, ◌≢◌, refl, true, none, some, [], ◌∷◌, ◌==◌, if◌then◌else◌, or_none, length,
  ok, err,
}
use drf_enterprise_informati.IamAuth.IpFilter.{IpAddress}
use drf_enterprise_informati.IamAuth.Sessions.{OutstandingToken, Tokens, active_tokens}
use drf_enterprise_informati.IamAuth.Sessions.Limits.{HasKeys}
use drf_enterprise_informati.IamAuth.Policies.{
  Env, password_expired, mfa_setup_incomplete, ip_blocked, Parsers, pair, Request, issue, validate,
}
use drf_enterprise_informati.IamAuth.Policies.Clearing.{
  IsCleared, validate-IsCleared, login_bounded,
}

abbrev exact : IpAddress
exact = record {
  Address = String;
  Network = String;
  ip_address = or_none;
  ip_network = or_none;
  in_network = λ address network. network == address;
}

abbrev lib : Parsers
lib = record {
  ip = exact;
  fromisoformat = λ text. if text == "1970-01-01" then some 0 else none;
  loads = λ text. if text == "[]" then some [] else some ("10.0.0.1" ∷ []);
}

abbrev env : Env
env = record {
  user = "u1";
  user_created_at = 1000;
  memberships = record { tenant_id = "t1"; tenant_name = "One"; is_active = true } ∷ [];
  devices = [];
  password_expires_at = λ _. none;
  last_change = none;
  settings = [];
  catalog = ("ip_allowlist", "[]") ∷ ("password_expiry_days", "1") ∷ [];
  max_sessions = 1;
}

abbrev token : String → ℕ → OutstandingToken
token pk created_at = record { pk = pk; user = "u1"; created_at = created_at }

abbrev request : Request
request = record {
  tenant_id = some "t1";
  client_ip = some "10.0.0.1";
  now = 80000;
  first_token = token "b" 80000;
  second_token = token "c" 80001;
}

abbrev tokens : Tokens
tokens = record { outstanding = token "a" 500 ∷ []; blacklisted = [] }

passed : (validate lib env request tokens).0 ≡ ok (pair (token "c" 80001) "t1")
unfolding validate
passed = refl

-- The session of the earlier login and the first token of this one are ended.
ended : (validate lib env request tokens).1.blacklisted ≡ "a" ∷ "b" ∷ []
unfolding validate
ended = refl

-- The same login under other settings, or one day later.
refused :
    ((validate lib env (record request { now = 90000 }) tokens).0 ≡ err password_expired)
    × (((validate lib
            (record env { catalog = ("mfa_enforcement", "required") ∷ [] })
            request
            tokens).0
          ≡ err mfa_setup_incomplete)
        × ((validate lib (record env { catalog = ("ip_blocklist", "!") ∷ [] }) request tokens).0
            ≡ err ip_blocked))
unfolding validate
refused = (refl, (refl, refl))

validate-IsCleared_example : IsCleared lib env request "t1"
validate-IsCleared_example = validate-IsCleared lib env request tokens (token "c" 80001) "t1" passed

keys : HasKeys (issue request.second_token (issue request.first_token tokens)).outstanding
keys = ((refl, (refl, tt)), ((refl, tt), (tt, tt)))

some_limit : ◌≢◌ {A = ℕ} 1 0
some_limit h = cc

login_bounded_example : length (active_tokens "u1" (validate lib env request tokens).1) ≤ 1
login_bounded_example =
    login_bounded lib env request tokens (token "c" 80001) "t1" keys some_limit passed
