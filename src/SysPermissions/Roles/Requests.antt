-- ===== src/SysPermissions/Roles/Requests.antt =====
-- A viewer's requests.
use drf_enterprise_informati.Prelude.{
  String, ◌≡◌, sym, ap, ◌∙◌, inl, inr, true, false, some, [], arith, or_default, Dict, get,
  find_first,
}
use drf_enterprise_informati.SysPermissions.Catalog.{Action}
use drf_enterprise_informati.SysPermissions.Roles.{TenantRole}
use drf_enterprise_informati.SysPermissions.Access.{
  Membership, Request, get_tenant_id, is_member, has_permission, member_passes,
}
use drf_enterprise_informati.SysPermissions.Roles.Viewers.{IsSafe}

-- A request by a member who is no administrator, and whose role is a viewer's and grants no more
-- than permissions that the catalog marks read-only, passes the permission check only for a codename
-- that the catalog marks read-only, if the catalog has the codename.
pub viewer_cannot_write :
    (catalog : Dict Action) (role : TenantRole) (request : Request) (member : Membership)
    (tenant_id codename : String) (action : Action)
    → IsSafe catalog role
    → role.kind ≡ "viewer"
    → get_tenant_id request.auth ≡ some tenant_id
    → find_first (is_member tenant_id) request.memberships ≡ some member
    → member.is_admin ≡ false
    → member.permissions ≡ some role.permissions
    → get codename catalog ≡ some action
    → has_permission codename request ≡ true
    → action.readonly ≡ some true
viewer_cannot_write catalog role request member t codename action safe viewer token first no_admin
      roles found passed =
    elim (member_passes codename request t member token first passed) [
      | inl admin ↦ ground arith
      | inr (access, own) ↦
          safe viewer codename 1 action (ap (λ p. get codename (or_default p [])) (sym roles) ∙ own)
            (omega arith) found
    ]
