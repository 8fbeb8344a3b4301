-- ===== src/IamAuth/Login/Unlocking.antt =====
-- Who may unlock which account.
use drf_enterprise_informati.Prelude.{String, List, ◌∷◌, ◌≡◌, ◌≢◌, true, some}
use drf_enterprise_informati.Core.Cache.{Cache}
use drf_enterprise_informati.IamAuth.Login.{Unlocker}

-- The tenant is one of the list.
pub data IsListed (tenant : String) : List String → Type 0 where
  listed_first : {rest : List String} → IsListed tenant (tenant ∷ rest)
  listed_later :
      {t : String} {rest : List String} → IsListed tenant rest → IsListed tenant (t ∷ rest)

-- Who may unlock the accounts of others: a superuser, or a user with an active admin membership of
-- the tenant that the token names.
pub data IsUnlocker (user : Unlocker) : Type 0 where
  superuser : user.is_superuser ≡ true → IsUnlocker user
  tenant_admin :
      (tenant : String)
      → user.tenant_id ≡ some tenant
      → tenant ≢ ""
      → IsListed tenant user.admin_of
      → IsUnlocker user
