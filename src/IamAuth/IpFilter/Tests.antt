-- ===== src/IamAuth/IpFilter/Tests.antt =====
-- The filter with networks that are single addresses.
use drf_enterprise_informati.Prelude.{String, ◌≡◌, ◌↔◌, refl, true, [], ◌∷◌, ◌==◌, or_none}
use drf_enterprise_informati.IamAuth.IpFilter.{
  IpAddress, is_ip_blocked, IsDenied, is_ip_blocked_iff,
}

abbrev single_addresses : IpAddress
single_addresses = record {
  Address = String;
  Network = String;
  ip_address = λ ip. or_none ip;
  ip_network = λ cidr. or_none cidr;
  in_network = λ ip network. ip == network;
}

blocks_listed : is_ip_blocked single_addresses "10.0.0.1" [] ("10.0.0.2" ∷ "10.0.0.1" ∷ []) ≡ true
unfolding is_ip_blocked
blocks_listed = refl

is_ip_blocked_iff_example :
    (is_ip_blocked single_addresses "10.0.0.1" ("10.0.0.2" ∷ []) [] ≡ true)
    ↔ IsDenied single_addresses "10.0.0.1" ("10.0.0.2" ∷ []) []
is_ip_blocked_iff_example = is_ip_blocked_iff single_addresses "10.0.0.1" ("10.0.0.2" ∷ []) []
