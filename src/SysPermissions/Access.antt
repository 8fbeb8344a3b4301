-- ===== src/SysPermissions/Access.antt =====
-- apps/sys_permissions/permissions.py: the permission class that guards the endpoints, and
-- `get_tenant_id` of apps/tenants/utils.py.
use Prim.Native.String.{◌++◌}
use drf_enterprise_informati.Prelude.{
  ℕ, String, ◌≡◌, ◌↔◌, ◌⊎◌, refl, ap, ◌∙◌, inl, inr, Bool, true, false, ◌&&◌, not, Option, none,
  some, List, [], ◌∷◌, arith, ◌==◌, eq_iff, nat_eq, is_set, or_default, or_empty, if◌then◌else◌,
  Bool-cases, Option-cases, find_first, find_first_sound, Dict, get,
}
use drf_enterprise_informati.Core.PyText.{split_on}

-- A user's membership of a tenant; `permissions` are those of its role.
pub record Membership : Type 0 where
  pub tenant_id : String
  pub is_active : Bool
  pub is_admin : Bool
  pub permissions : Option (Dict ℕ)

-- `auth` are the claims of the token, when there is one.
pub record Request : Type 0 where
  pub is_authenticated : Bool
  pub auth : Option (Dict String)
  pub memberships : List Membership

-- `get_tenant_id`
abbrev pub get_tenant_id : Option (Dict String) → Option String
get_tenant_id none = none
get_tenant_id (some claims) = get "tenant_id" claims

abbrev first_of : List String → String
first_of [] = ""
first_of (x ∷ xs) = x

-- `f"{codename.split(".")[0]}.access"`
unfoldable pub access_codename : String → String
unfolding split_on
access_codename codename = first_of (split_on b'.' codename) ++ ".access"

abbrev pub is_member : String → Membership → Bool
is_member tenant_id m = m.tenant_id == tenant_id && m.is_active

-- `permissions.get(codename) == 1`
abbrev pub is_one : Option ℕ → Bool
is_one none = false
is_one (some v) = nat_eq v 1

unfoldable role_allows : String → Membership → Bool
unfolding access_codename
role_allows codename m =
    let permissions = or_default m.permissions [] in
    if not (is_one (get (access_codename codename) permissions))
    then false
    else is_one (get codename permissions)

unfoldable member_allows : String → Option Membership → Bool
unfolding role_allows
member_allows codename none = false
member_allows codename (some m) = if m.is_admin then true else role_allows codename m

-- `_Permission.has_permission`
unfoldable pub has_permission : String → Request → Bool
unfolding member_allows
has_permission codename request =
    if not request.is_authenticated
    then false
    else let tenant_id = or_empty (get_tenant_id request.auth) in
      if not (is_set tenant_id)
      then false
      else member_allows codename (find_first (is_member tenant_id) request.memberships)

-- Who may pass: the user's membership of the token's tenant is active, and it is an administrator's
-- or its role has both the app's access permission and the asked one.
pub record MayPass (codename : String) (request : Request) : Type 0 where
  pub tenant_id : String
  pub membership : Membership
  pub authenticated : request.is_authenticated ≡ true
  pub in_token : or_empty (get_tenant_id request.auth) ≡ tenant_id
  pub named : is_set tenant_id ≡ true
  pub first : find_first (is_member tenant_id) request.memberships ≡ some membership
  pub own : (membership.tenant_id ≡ tenant_id) × (membership.is_active ≡ true)
  pub reason :
      (membership.is_admin ≡ true)
      ⊎ ((get (access_codename codename) (or_default membership.permissions []) ≡ some 1)
          × (get codename (or_default membership.permissions []) ≡ some 1))

found_own :
    (tenant_id : String) (l : List Membership) (m : Membership)
    → find_first (is_member tenant_id) l ≡ some m
    → (m.tenant_id ≡ tenant_id) × (m.is_active ≡ true)
found_own tenant_id l m h =
    let own = find_first_sound (is_member tenant_id) l m h in
    ((eq_iff m.tenant_id tenant_id).0 (ground arith), ground arith)

is_one_iff : (o : Option ℕ) → (is_one o ≡ true) ↔ (o ≡ some 1)
is_one_iff none = (λ h. cc, λ h. cc)
is_one_iff (some v) = ground arith

role_reason :
    (codename : String) (m : Membership)
    → member_allows codename (some m) ≡ true
    → (m.is_admin ≡ true)
      ⊎ ((get (access_codename codename) (or_default m.permissions []) ≡ some 1)
          × (get codename (or_default m.permissions []) ≡ some 1))
unfolding member_allows
role_reason codename m h =
    let permissions = or_default m.permissions [] in
    elim (Bool-cases m.is_admin) [
      | inl e ↦ inl e
      | inr e ↦ inr (
        (is_one_iff (get (access_codename codename) permissions)).0 (ground arith),
        (is_one_iff (get codename permissions)).0 (ground arith),
      )
    ]

reason_enough :
    (codename : String) (m : Membership)
    → (m.is_admin ≡ true)
      ⊎ ((get (access_codename codename) (or_default m.permissions []) ≡ some 1)
          × (get codename (or_default m.permissions []) ≡ some 1))
    → member_allows codename (some m) ≡ true
unfolding member_allows
reason_enough codename m (inl e) = ground arith
reason_enough codename m (inr (a, b)) = ground (arith, a, b)

passes :
    (codename : String) (request : Request)
    → has_permission codename request ≡ true
    → MayPass codename request
unfolding has_permission
passes codename request h =
    let tenant_id = or_empty (get_tenant_id request.auth) in
    let member = find_first (is_member tenant_id) request.memberships in
    elim (Option-cases member) [
      | inl e ↦ let impossible : ◌≡◌ {A = Bool} false true = ground (arith, e) in cc
      | inr (m, e) ↦ record {
        tenant_id = tenant_id;
        membership = m;
        authenticated = ground arith;
        in_token = refl;
        named = ground arith;
        first = e;
        own = found_own tenant_id request.memberships m e;
        reason = role_reason codename m (ground arith);
      }
    ]

-- A request passes exactly if its user is authenticated, its token names a tenant, and the user's
-- first active membership of that tenant is an administrator's or its role holds both the app's
-- access permission and the permission asked for.
pub has_permission_iff :
    (codename : String) (request : Request)
    → (has_permission codename request ≡ true) ↔ MayPass codename request
unfolding has_permission
has_permission_iff codename request = (
  passes codename request,
  λ m.
      let read : find_first (is_member (or_empty (get_tenant_id request.auth))) request.memberships
          ≡ some m.membership =
        ap (λ t. find_first (is_member t) request.memberships) m.in_token ∙ m.first in
      ground (
        arith,
        m.authenticated,
        ap is_set m.in_token ∙ m.named,
        ap (member_allows codename) read ∙ reason_enough codename m.membership m.reason,
      ),
)

-- What a request by a member who is no administrator has shown when it passes.
pub member_passes :
    (codename : String) (request : Request) (tenant_id : String) (m : Membership)
    → get_tenant_id request.auth ≡ some tenant_id
    → find_first (is_member tenant_id) request.memberships ≡ some m
    → has_permission codename request ≡ true
    → (m.is_admin ≡ true)
      ⊎ ((get (access_codename codename) (or_default m.permissions []) ≡ some 1)
          × (get codename (or_default m.permissions []) ≡ some 1))
unfolding has_permission
member_passes codename request tenant_id m token first h =
    let named = ap or_empty token in
    let read = ap (λ t. find_first (is_member t) request.memberships) named ∙ first in
    role_reason codename m (ground (arith, ap (member_allows codename) read))
