-- ===== src/IamAuth/Policies.antt =====
-- apps/iam_auth/serializers.py: `LoginSerializer`, which checks the policies of the tenant before it
-- issues tokens, and `get_tenant_setting` of apps/tenants/utils.py. Arguments: `ipaddress`, the
-- parsing of JSON lists and of dates, and the tokens that `rest_framework_simplejwt` creates.
pub mod Passing
pub mod Clearing
mod Tests
use drf_enterprise_informati.Prelude.{
  ℕ, ◌-◌, ◌/◌, String, Bool, true, false, ◌&&◌, not, Option, none, some, List, [], ◌∷◌, ◌++◌, ◌==◌,
  leb, nat_eq, is_set, or_empty, is_empty, find_first, where_, length, if◌then◌else◌, Dict, get,
  Result, ok, err, ◌>>=◌, ◌>>◌, raise_if,
}
use drf_enterprise_informati.Core.PyText.{ℤ, pos, negsuc, int}
use drf_enterprise_informati.IamAuth.IpFilter.{IpAddress, is_ip_blocked}
use drf_enterprise_informati.IamAuth.Sessions.{OutstandingToken, Tokens, enforce_session_limit}

pub record TenantMembership : Type 0 where
  pub tenant_id : String
  pub tenant_name : String
  pub is_active : Bool

-- The columns of an `MFADevice` of the user that the login reads.
pub record Device : Type 0 where
  pub tenant_id : String
  pub is_active : Bool

pub record TenantSetting : Type 0 where
  pub tenant_id : String
  pub key : String
  pub value : String

-- The user's rows, the settings with the catalog's defaults, and the session limit.
pub record Env : Type 0 where
  pub user : String
  pub user_created_at : ℕ
  pub memberships : List TenantMembership
  pub devices : List Device
  pub password_expires_at : String → Option String
  pub last_change : Option ℕ
  pub settings : List TenantSetting
  pub catalog : Dict String
  pub max_sessions : ℕ

pub data LoginError : Type 0 where
  no_tenant_membership invalid_tenant ip_blocked password_expired mfa_setup_incomplete : LoginError
  tenant_required : List (String × String) → LoginError
  value_error : LoginError

-- `get_tenant_setting`
abbrev of_row : Option TenantSetting → Option String → Option String
of_row none default = default
of_row (some row) default = some row.value

unfoldable pub get_tenant_setting : Env → String → String → Option String
get_tenant_setting env tenant_id key =
    of_row (find_first (λ s. s.tenant_id == tenant_id && s.key == key) env.settings)
      (get key env.catalog)

-- `get_tenant_setting(tenant_id, key) or default`
abbrev pub setting_or : Option String → String → String
setting_or value default = if is_set (or_empty value) then or_empty value else default

abbrev names : List TenantMembership → List (String × String)
names [] = []
names (m ∷ ms) = (m.tenant_id, m.tenant_name) ∷ names ms

abbrev pub in_tenant : Option TenantMembership → Result LoginError TenantMembership
in_tenant none = err invalid_tenant
in_tenant (some m) = ok m

abbrev pub pick : Option String → List TenantMembership → Result LoginError TenantMembership
pick (some tenant_id) ms = in_tenant (find_first (λ m. m.tenant_id == tenant_id) ms)
pick none [] = err no_tenant_membership
pick none (m ∷ []) = ok m
pick none (m ∷ n ∷ ms) = err (tenant_required (names (m ∷ n ∷ ms)))

-- `_resolve_tenant_membership`
unfoldable pub resolve_tenant_membership :
    Option String → List TenantMembership → Result LoginError TenantMembership
resolve_tenant_membership tenant_id memberships =
    let active = where_ (λ m. m.is_active) memberships in
    raise_if (is_empty active) no_tenant_membership >> pick tenant_id active

-- `int(raw_days)`, and whole days between two times in seconds, rounded down
abbrev pub days_between : ℕ → ℕ → ℤ
days_between baseline now =
    if leb baseline now
    then pos ((now - baseline) / 86400)
    else negsuc ((baseline - now - 1) / 86400)

abbrev pub ℤ_leb : ℤ → ℤ → Bool
ℤ_leb (pos a) (pos b) = leb a b
ℤ_leb (pos a) (negsuc b) = false
ℤ_leb (negsuc a) (pos b) = true
ℤ_leb (negsuc a) (negsuc b) = leb b a

abbrev is_zero : ℤ → Bool
is_zero (pos n) = nat_eq n 0
is_zero (negsuc n) = false

abbrev baseline_of : Option ℕ → ℕ → ℕ
baseline_of none created_at = created_at
baseline_of (some changed) created_at = changed

-- The part of `_enforce_password_expiry` on the age of the password.
abbrev pub enforce_age : ℕ → ℕ → Option ℤ → Result LoginError (Unit {0})
enforce_age baseline now none = err value_error
enforce_age baseline now (some days) =
    if is_zero days
    then ok tt
    else raise_if (ℤ_leb days (days_between baseline now)) password_expired

-- The part on a forced expiry; the date is `none` for a ValueError.
abbrev pub enforce_forced : ℕ → Option ℕ → Result LoginError (Unit {0})
enforce_forced now none = err value_error
enforce_forced now (some expires_at) = raise_if (leb expires_at now) password_expired

abbrev lists_read : Option (List String) → Result LoginError (List String)
lists_read none = err value_error
lists_read (some l) = ok l

-- `_enforce_mfa_enrollment`
unfoldable pub enforce_mfa_enrollment : Env → String → Result LoginError (Unit {0})
unfolding get_tenant_setting
enforce_mfa_enrollment env tenant_id =
    if not
      (setting_or (get_tenant_setting env tenant_id "mfa_enforcement") "optional" == "required")
    then ok tt
    else raise_if (is_empty (where_ (λ d. d.tenant_id == tenant_id && d.is_active) env.devices))
        mfa_setup_incomplete

-- What the code relies on outside: `datetime.fromisoformat`, `json.loads` of a list of texts.
pub record Parsers : Type 1 where
  pub ip : IpAddress
  pub fromisoformat : String → Option ℕ
  pub loads : String → Option (List String)

-- What a login without an error answers.
pub data Answer : Type 0 where
  challenge : String → String → Answer
  pair : OutstandingToken → String → Answer

-- A login request: the tenant asked for, the client's address, the time, and the two tokens that
-- the library creates, one in `super().validate` and one in `get_token`.
pub record Request : Type 0 where
  pub tenant_id : Option String
  pub client_ip : Option String
  pub now : ℕ
  pub first_token : OutstandingToken
  pub second_token : OutstandingToken

-- `for_user` enters the token in the table of outstanding tokens.
abbrev pub issue : OutstandingToken → Tokens → Tokens
issue t tokens = record tokens { outstanding = tokens.outstanding ++ (t ∷ []) }

module _ (lib : Parsers) (env : Env) where
  -- `_enforce_ip_policy`; the address is none without a request
  unfoldable pub enforce_ip_policy : Option String → String → Result LoginError (Unit {0})
  unfolding get_tenant_setting is_ip_blocked
  enforce_ip_policy client_ip tenant_id =
      if not (is_set (or_empty client_ip))
      then ok tt
      else lists_read
          (lib.loads (setting_or (get_tenant_setting env tenant_id "ip_allowlist") "[]"))
        >>= λ allowlist.
            lists_read
              (lib.loads (setting_or (get_tenant_setting env tenant_id "ip_blocklist") "[]"))
            >>= λ blocklist.
                raise_if (is_ip_blocked lib.ip (or_empty client_ip) allowlist blocklist) ip_blocked

  -- `_enforce_password_expiry`
  unfoldable pub enforce_password_expiry : String → ℕ → Result LoginError (Unit {0})
  unfolding get_tenant_setting int
  enforce_password_expiry tenant_id now =
      let forced = or_empty (env.password_expires_at tenant_id) in
      (if is_set forced then enforce_forced now (lib.fromisoformat forced) else ok tt)
      >> enforce_age (baseline_of env.last_change env.user_created_at) now
          (int (setting_or (get_tenant_setting env tenant_id "password_expiry_days") "0"))

  -- What `validate` decides before it issues the second token: the tenant, and whether a device is
  -- to be challenged.
  unfoldable pub cleared : Request → Result LoginError (String × Bool)
  unfolding enforce_ip_policy enforce_password_expiry enforce_mfa_enrollment
      resolve_tenant_membership
  cleared request = resolve_tenant_membership request.tenant_id env.memberships >>= λ membership.
      enforce_ip_policy request.client_ip membership.tenant_id
      >> (enforce_password_expiry membership.tenant_id request.now
          >> (enforce_mfa_enrollment env membership.tenant_id
              >> ok (
                membership.tenant_id,
                not (
                    is_empty (
                      where_ (λ d. d.tenant_id == membership.tenant_id && d.is_active)
                        env.devices)),
              )))

  -- The answer, and the table of tokens.
  unfoldable pub finish :
      Request → Result LoginError (String × Bool) → Tokens → Result LoginError Answer × Tokens
  unfolding enforce_session_limit
  finish request (err e) tokens = (err e, tokens)
  finish request (ok (tenant_id, true)) tokens = (ok (challenge env.user tenant_id), tokens)
  finish request (ok (tenant_id, false)) tokens = (
    ok (pair request.second_token tenant_id),
    enforce_session_limit env.max_sessions env.user (issue request.second_token tokens),
  )

  -- `LoginSerializer.validate`, for a user whose password `super().validate` has accepted
  unfoldable pub validate : Request → Tokens → Result LoginError Answer × Tokens
  unfolding finish cleared
  validate request tokens = finish request (cleared request) (issue request.first_token tokens)
