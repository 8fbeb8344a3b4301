-- ===== src/IamAuth/Policies/Passing.antt =====
-- What each policy of the login has checked when it lets a login through.
use drf_enterprise_informati.Prelude.{
  ℕ, ◌<◌, String, ◌≡◌, ◌≢◌, refl, sym, ap, ◌∙◌, Bool, true, false, ◌&&◌, not, Option, none, some,
  List, [], ◌∷◌, ◌==◌, arith, eq_iff, leb, is_set, or_empty, is_empty, find_first, find_first_sound,
  any_of, where_, if◌then◌else◌, ok, raise_if-ok, raise_if_inv, some_injective, find_first_any,
  any_where, eq_refl, nat_eq, >>=-eq-ok, ok_injective,
}
use drf_enterprise_informati.Core.PyText.{pos, int}
use drf_enterprise_informati.IamAuth.IpFilter.{IsDenied, is_ip_blocked_iff}
use drf_enterprise_informati.IamAuth.Policies.{
  TenantMembership, Device, Env, LoginError, no_tenant_membership, password_expired,
  get_tenant_setting, setting_or, in_tenant, pick, resolve_tenant_membership, days_between, ℤ_leb,
  baseline_of, enforce_age, enforce_forced, enforce_mfa_enrollment, Parsers, enforce_ip_policy,
  enforce_password_expiry,
}

abbrev pub is_member : String → TenantMembership → Bool
is_member tenant_id m = m.tenant_id == tenant_id && m.is_active

abbrev pub has_device : Env → String → Bool
has_device env tenant_id = any_of (λ d. d.tenant_id == tenant_id && d.is_active) env.devices

pub where_any :
    {A : Type 0} (p : A → Bool) (xs : List A) → is_empty (where_ p xs) ≡ not (any_of p xs)
where_any p [] = refl
where_any p (x ∷ xs) = ground (arith, where_any p xs)

in_tenant_inv :
    (t : String) (found : Option TenantMembership) (m : TenantMembership)
    → in_tenant found ≡ ok m
    → found ≡ some m
in_tenant_inv t none m h = cc
in_tenant_inv t (some n) m h = cc

pick_member :
    (asked : Option String) (ms : List TenantMembership) (m : TenantMembership)
    → pick asked ms ≡ ok m
    → (any_of (λ x. x.tenant_id == m.tenant_id) ms ≡ true)
      × ((t : String) → asked ≡ some t → t ≡ m.tenant_id)
pick_member none [] m h = cc
pick_member none (n ∷ []) m h =
    let same = ok_injective {E = LoginError} n m h in
    (ground (arith, eq_refl m.tenant_id, ap (λ x. x.tenant_id) same), λ t impossible. cc)
pick_member none (n ∷ k ∷ ms) m h = cc
pick_member (some t) ms m h =
    let found = in_tenant_inv t (find_first (λ x. x.tenant_id == t) ms) m h in
    let own = (eq_iff m.tenant_id t).0 (find_first_sound (λ x. x.tenant_id == t) ms m found) in
    (
      find_first_any (λ x. x.tenant_id == t) (λ x. x.tenant_id == m.tenant_id) ms m found
          (eq_refl m.tenant_id),
      λ u e. some_injective u t (sym e) ∙ sym own,
    )

-- The membership that the login resolves to is an active one of the tenant asked for.
pub picked_member :
    (asked : Option String) (ms : List TenantMembership) (m : TenantMembership)
    → resolve_tenant_membership asked ms ≡ ok m
    → (any_of (is_member m.tenant_id) ms ≡ true) × ((t : String) → asked ≡ some t → t ≡ m.tenant_id)
unfolding resolve_tenant_membership
picked_member asked ms m h =
    let active = where_ (λ x. x.is_active) ms in
    let (some_active, picked) =
      raise_if-ok (is_empty active) no_tenant_membership (pick asked active) h in
    let (member, same) = pick_member asked active m picked in
    (any_where (λ x. x.is_active) (λ x. x.tenant_id == m.tenant_id) ms member, same)

module _ (lib : Parsers) (env : Env) where
  pub address_passed :
      (client_ip : Option String) (tenant_id ip : String) (allowlist blocklist : List String)
      → enforce_ip_policy lib env client_ip tenant_id ≡ ok tt
      → client_ip ≡ some ip
      → is_set ip ≡ true
      → lib.loads (setting_or (get_tenant_setting env tenant_id "ip_allowlist") "[]")
        ≡ some allowlist
      → lib.loads (setting_or (get_tenant_setting env tenant_id "ip_blocklist") "[]")
        ≡ some blocklist
      → ¬ (IsDenied lib.ip ip allowlist blocklist)
  unfolding enforce_ip_policy
  address_passed client_ip tenant_id ip allowlist blocklist h here set allow block denied =
      let blocked = (is_ip_blocked_iff lib.ip ip allowlist blocklist).1 denied in
      cc (rw (here, set, allow, block, blocked) at h)

  age_passed :
      (baseline now days : ℕ)
      → enforce_age baseline now (some (pos days)) ≡ ok tt
      → days ≢ 0
      → ℤ_leb (pos days) (days_between baseline now) ≡ false
  age_passed baseline now days h some_days =
      let z : nat_eq days 0 ≡ false = ground arith in
      raise_if_inv (ℤ_leb (pos days) (days_between baseline now)) password_expired (rw (z) at h)

  forced_passed :
      (now expires_at : ℕ) → enforce_forced now (some expires_at) ≡ ok tt → now < expires_at
  forced_passed now expires_at h =
      let e = raise_if_inv (leb expires_at now) password_expired h in ground arith

  -- The part of the record that the policies of one tenant give.
  pub enrollment_passed :
      (tenant_id : String)
      → enforce_mfa_enrollment env tenant_id ≡ ok tt
      → has_device env tenant_id ≡ false
      → get_tenant_setting env tenant_id "mfa_enforcement" ≢ some "required"
  unfolding enforce_mfa_enrollment
  enrollment_passed tenant_id h none_active required =
      let p : Device → Bool = λ d. d.tenant_id == tenant_id && d.is_active in
      let empty : is_empty (where_ p env.devices) ≡ true =
        where_any p env.devices ∙ ap not none_active in
      cc (rw (required, empty) at h)

  pub expiry_passed :
      (tenant_id : String) (now : ℕ)
      → enforce_password_expiry lib env tenant_id now ≡ ok tt
      → ((text : String) (expires_at : ℕ)
          → env.password_expires_at tenant_id ≡ some text
          → is_set text ≡ true
          → lib.fromisoformat text ≡ some expires_at
          → now < expires_at)
        × ((days : ℕ)
            → int (setting_or (get_tenant_setting env tenant_id "password_expiry_days") "0")
              ≡ some (pos days)
            → days ≢ 0
            → ℤ_leb (pos days) (days_between (baseline_of env.last_change env.user_created_at) now)
              ≡ false)
  unfolding enforce_password_expiry
  expiry_passed tenant_id now h =
      let forced = or_empty (env.password_expires_at tenant_id) in
      let days = int (setting_or (get_tenant_setting env tenant_id "password_expiry_days") "0") in
      let baseline = baseline_of env.last_change env.user_created_at in
      let (done, first, aged) =
        >>=-eq-ok (if is_set forced then enforce_forced now (lib.fromisoformat forced) else ok tt)
          (λ _. enforce_age baseline now days) h in
      (
        λ text expires_at here set read.
            forced_passed now expires_at (rw (here, set, read) at first),
        λ n read some_days. age_passed baseline now n (rw (read) at aged) some_days,
      )
