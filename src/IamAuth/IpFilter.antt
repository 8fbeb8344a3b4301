-- ===== src/IamAuth/IpFilter.antt =====
-- apps/iam_auth/ip_filter.py: the tenant's blocklist and allowlist of networks. The module
-- `ipaddress` is an argument: nothing of how it reads addresses is used.
mod Tests
use drf_enterprise_informati.Prelude.{
  String, ◌≡◌, ◌≢◌, refl, Bool, true, false, ◌&&◌, not, Option, none, some, List, [], ◌∷◌, arith,
  ◌↔◌, ◌⊎◌, inl, inr, if◌then◌else◌, is_empty, Bool-cases, Option-cases,
}

-- `ip_address` and `ip_network(cidr, strict=False)` give `none` for a ValueError; `in_network` is
-- the test `address in network`.
pub record IpAddress : Type 1 where
  pub Address : Type 0
  pub Network : Type 0
  pub ip_address : String → Option Address
  pub ip_network : String → Option Network
  pub in_network : Address → Network → Bool

module _ (lib : IpAddress) where
  open lib use {Address, Network, ip_address, ip_network, in_network}

  -- One round of the loop: an invalid entry is skipped.
  matches : Address → Option Network → Bool
  matches client none = false
  matches client (some network) = in_network client network

  matches_any : Address → List String → Bool
  unfolding matches
  matches_any client [] = false
  matches_any client (cidr ∷ rest) =
      if matches client (ip_network cidr) then true else matches_any client rest

  blocks : List String → List String → Option Address → Bool
  unfolding matches_any
  blocks allowlist blocklist none = false
  blocks allowlist blocklist (some client) =
      if not (is_empty blocklist) && matches_any client blocklist
      then true
      else if not (is_empty allowlist) && not (matches_any client allowlist)
      then true
      else false

  unfoldable pub is_ip_blocked : String → List String → List String → Bool
  unfolding blocks
  is_ip_blocked ip allowlist blocklist = blocks allowlist blocklist (ip_address ip)

  -- Some entry is a valid network that holds the address.
  pub data Holds (client : Address) : List String → Type 0 where
    here :
        {cidr : String} {rest : List String} (network : Network)
        → ip_network cidr ≡ some network
        → in_network client network ≡ true
        → Holds client (cidr ∷ rest)
    there : {cidr : String} {rest : List String} → Holds client rest → Holds client (cidr ∷ rest)

  matches_any_sound :
      (client : Address) (l : List String) → matches_any client l ≡ true → Holds client l
  unfolding matches_any
  matches_any_sound client [] h = cc
  matches_any_sound client (cidr ∷ rest) h = elim (Option-cases (ip_network cidr)) [
    | inl e ↦ there (matches_any_sound client rest (ground arith))
    | inr (n, e) ↦ elim (Bool-cases (in_network client n)) [
      | inl y ↦ here n e y
      | inr y ↦ there (matches_any_sound client rest (ground arith))
    ]
  ]

  matches_any_complete :
      (client : Address) (l : List String) → Holds client l → matches_any client l ≡ true
  unfolding matches_any
  matches_any_complete client _ (here n e y) = ground arith
  matches_any_complete client _ (there {rest = rest} h) =
      ground (arith, matches_any_complete client rest h)

  not_empty : (client : Address) (l : List String) → Holds client l → is_empty l ≡ false
  not_empty client _ (here n e y) = refl
  not_empty client _ (there h) = refl

  -- The independent description of the policy.
  pub record IsDenied (ip : String) (allowlist blocklist : List String) : Type 0 where
    pub client : Address
    pub valid : ip_address ip ≡ some client
    pub reason : Holds client blocklist ⊎ ((allowlist ≢ []) × ¬ (Holds client allowlist))

  is_empty_iff : (l : List String) → (is_empty l ≡ false) ↔ (l ≢ [])
  is_empty_iff [] = (λ h. cc, λ h. absurd (h refl))
  is_empty_iff (x ∷ xs) = (λ h e. cc, λ h. refl)

  is_ip_blocked-IsDenied :
      (ip : String) (allowlist blocklist : List String)
      → is_ip_blocked ip allowlist blocklist ≡ true
      → IsDenied ip allowlist blocklist
  unfolding is_ip_blocked
  is_ip_blocked-IsDenied ip allowlist blocklist h = elim (Option-cases (ip_address ip)) [
    | inl e ↦ cc (rw (e, blocks) at h)
    | inr (client, e) ↦ record {
      client = client;
      valid = e;
      reason = elim (Bool-cases (matches_any client blocklist)) [
        | inl b ↦ inl (matches_any_sound client blocklist b)
        | inr b ↦ inr (
          (is_empty_iff allowlist).0 (ground arith),
          λ m. ground (arith, matches_any_complete client allowlist m),
        )
      ];
    }
  ]

  is_ip_blocked_complete :
      (ip : String) (allowlist blocklist : List String)
      → IsDenied ip allowlist blocklist
      → is_ip_blocked ip allowlist blocklist ≡ true
  unfolding is_ip_blocked
  is_ip_blocked_complete ip allowlist blocklist d = elim d.reason [
    | inl b ↦
        ground (
          arith,
          d.valid,
          matches_any_complete d.client blocklist b,
          not_empty d.client blocklist b,
        )
    | inr (some_allowed, out) ↦ elim (Bool-cases (matches_any d.client allowlist)) [
      | inl m ↦ absurd (out (matches_any_sound d.client allowlist m))
      | inr m ↦ ground (arith, d.valid, (is_empty_iff allowlist).1 some_allowed)
    ]
  ]

  -- An address is refused exactly if it is valid and lies in a valid network of the blocklist, or
  -- the allowlist is not empty and none of its valid networks holds it. An address that cannot be
  -- read is never refused.
  pub is_ip_blocked_iff :
      (ip : String) (allowlist blocklist : List String)
      → (is_ip_blocked ip allowlist blocklist ≡ true) ↔ IsDenied ip allowlist blocklist
  is_ip_blocked_iff ip allowlist blocklist =
      (is_ip_blocked-IsDenied ip allowlist blocklist, is_ip_blocked_complete ip allowlist blocklist)
