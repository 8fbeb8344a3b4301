-- ===== src/IamAuth.antt =====
-- The code under apps/iam_auth/: the account lockout, the login view and the IP policy.
pub mod Lockout
pub mod Login
pub mod IpFilter
pub mod Sessions
pub mod Policies
pub mod Passwords
