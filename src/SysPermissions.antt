-- ===== src/SysPermissions.antt =====
-- apps/sys_permissions: the catalog of permissions, its checks, and the permission class; with the
-- roles that apps/tenants seeds from it and apps/iam_roles edits.
pub mod Catalog
pub mod Registry
pub mod Checks
pub mod Access
pub mod Roles
mod Tests
