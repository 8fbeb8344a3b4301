-- ===== src/IamAuth/Policies/Clearing.antt =====
-- Tokens are issued only to a login that every policy of its tenant lets through.
use mathlib.Core.Path.{subst}
use drf_enterprise_informati.Prelude.{
  ℕ, ◌<◌, ◌≤◌, String, ◌≡◌, ◌≢◌, refl, sym, ap, Bool, true, false, ◌&&◌, not, some, List, ◌==◌,
  arith, is_set, is_empty, any_of, where_, length, Result, ok, err, >>=-eq-ok, ok_injective,
}
use drf_enterprise_informati.Core.PyText.{pos, int}
use drf_enterprise_informati.IamAuth.IpFilter.{IsDenied}
use drf_enterprise_informati.IamAuth.Sessions.{
  OutstandingToken, Tokens, active_tokens, enforce_session_limit,
}
use drf_enterprise_informati.IamAuth.Sessions.Limits.{HasKeys, enforced_bound}
use drf_enterprise_informati.IamAuth.Policies.{
  Env, LoginError, get_tenant_setting, setting_or, resolve_tenant_membership, days_between, ℤ_leb,
  baseline_of, enforce_mfa_enrollment, Parsers, pair, Request, issue, enforce_ip_policy,
  enforce_password_expiry, cleared, finish, validate,
}
use drf_enterprise_informati.IamAuth.Policies.Passing.{
  is_member, has_device, where_any, picked_member, address_passed, enrollment_passed, expiry_passed,
}

-- What a login with tokens for a tenant has passed.
pub record IsCleared (lib : Parsers) (env : Env) (request : Request) (tenant_id : String)
    : Type 0 where
  pub member : any_of (is_member tenant_id) env.memberships ≡ true
  pub asked : (asked : String) → request.tenant_id ≡ some asked → asked ≡ tenant_id
  pub address :
      (ip : String) (allowlist blocklist : List String)
      → request.client_ip ≡ some ip
      → is_set ip ≡ true
      → lib.loads (setting_or (get_tenant_setting env tenant_id "ip_allowlist") "[]")
        ≡ some allowlist
      → lib.loads (setting_or (get_tenant_setting env tenant_id "ip_blocklist") "[]")
        ≡ some blocklist
      → ¬ (IsDenied lib.ip ip allowlist blocklist)
  pub not_forced :
      (text : String) (expires_at : ℕ)
      → env.password_expires_at tenant_id ≡ some text
      → is_set text ≡ true
      → lib.fromisoformat text ≡ some expires_at
      → request.now < expires_at
  pub not_old :
      (days : ℕ)
      → int (setting_or (get_tenant_setting env tenant_id "password_expiry_days") "0")
        ≡ some (pos days)
      → days ≢ 0
      → ℤ_leb
          (pos days)
          (days_between (baseline_of env.last_change env.user_created_at) request.now)
        ≡ false
  pub no_device : has_device env tenant_id ≡ false
  pub optional : get_tenant_setting env tenant_id "mfa_enforcement" ≢ some "required"

module _ (lib : Parsers) (env : Env) where
  cleared-IsCleared :
      (request : Request) (tenant_id : String)
      → cleared lib env request ≡ ok (tenant_id, false)
      → IsCleared lib env request tenant_id
  unfolding cleared
  cleared-IsCleared request tenant_id h =
      let (m, resolved, policies) =
        >>=-eq-ok (resolve_tenant_membership request.tenant_id env.memberships) _ h in
      let t = m.tenant_id in
      let devices = where_ (λ d. d.tenant_id == t && d.is_active) env.devices in
      let (one, from_ip, later) =
        >>=-eq-ok (enforce_ip_policy lib env request.client_ip t) _ policies in
      let (two, unexpired, last) =
        >>=-eq-ok (enforce_password_expiry lib env t request.now) _ later in
      let (three, enrolled, same) = >>=-eq-ok (enforce_mfa_enrollment env t) _ last in
      let answer =
        ok_injective {E = LoginError} (t, not (is_empty devices)) (tenant_id, false) same in
      let (member, asked) = picked_member request.tenant_id env.memberships m resolved in
      let (forced, age) = expiry_passed lib env t request.now unexpired in
      let none_active : has_device env t ≡ false = ground (
        arith,
        ap (λ a. a.1) answer,
        where_any (λ d. d.tenant_id == t && d.is_active) env.devices,
      ) in
      subst (IsCleared lib env request) (ap (λ a. a.0) answer) (record {
        member = member;
        asked = asked;
        address = λ ip allowlist blocklist here set allow block.
            address_passed lib env request.client_ip t ip allowlist blocklist from_ip here set allow
              block;
        not_forced = forced;
        not_old = age;
        no_device = none_active;
        optional = enrollment_passed lib env t enrolled none_active;
      })

  finish_inv :
      (request : Request) (c : Result LoginError (String × Bool)) (tokens : Tokens)
      (t : OutstandingToken) (tenant_id : String)
      → (finish lib env request c tokens).0 ≡ ok (pair t tenant_id)
      → (c ≡ ok (tenant_id, false))
        × ((finish lib env request c tokens).1
            ≡ enforce_session_limit env.max_sessions env.user (issue request.second_token tokens))
  unfolding finish
  finish_inv request (err e) tokens t tenant_id h = cc
  finish_inv request (ok (u, true)) tokens t tenant_id h = cc
  finish_inv request (ok (u, false)) tokens t tenant_id h = (cc, refl)

-- A login whose password was accepted gets tokens for a tenant only if it passes every policy: the
-- user has an active membership of the tenant, which is the one asked for; the client's address is
-- not denied by the tenant's lists; the password is neither forced to expire by now nor too old;
-- and the user has no active device there and the tenant does not require one.
pub validate-IsCleared :
    (lib : Parsers) (env : Env) (request : Request) (tokens : Tokens) (t : OutstandingToken)
    (tenant_id : String)
    → (validate lib env request tokens).0 ≡ ok (pair t tenant_id)
    → IsCleared lib env request tenant_id
unfolding validate
validate-IsCleared lib env request tokens t tenant_id h =
    cleared-IsCleared lib env request tenant_id (
      (finish_inv lib env request (cleared lib env request) (issue request.first_token tokens) t
        tenant_id h).0)

-- Where there is a limit on sessions, a login that gets tokens leaves the user with at most that many
-- active sessions, the two that the login itself has entered counted. No two tokens have one key.
pub login_bounded :
    (lib : Parsers) (env : Env) (request : Request) (tokens : Tokens) (t : OutstandingToken)
    (tenant_id : String)
    → HasKeys (issue request.second_token (issue request.first_token tokens)).outstanding
    → env.max_sessions ≢ 0
    → (validate lib env request tokens).0 ≡ ok (pair t tenant_id)
    → length (active_tokens env.user (validate lib env request tokens).1) ≤ env.max_sessions
unfolding validate
login_bounded lib env request tokens t tenant_id keys limit h =
    let issued = issue request.first_token tokens in
    let after = (finish_inv lib env request (cleared lib env request) issued t tenant_id h).1 in
    let bound =
      (enforced_bound env.max_sessions env.user (issue request.second_token issued) keys limit).0 in
    subst (λ ts. length (active_tokens env.user ts) ≤ env.max_sessions) (sym after) bound
