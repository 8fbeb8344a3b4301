-- ===== src/IamOauth/Refresh/Clients.antt =====
-- The client that a query finds.
use drf_enterprise_informati.Prelude.{
  String, ◌≡◌, true, List, [], ◌∷◌, arith, eq_iff, ◌==◌, ◌&&◌, Bool-cases, inl, inr, All,
}
use mathlib.Core.Path.{subst}
use drf_enterprise_informati.IamOauth.Model.{Client}
use drf_enterprise_informati.IamOauth.Refresh.{client, active_clients, only_client, find_client}

active_clients-All :
    (P : Client → Type 0) (client_id : String) (rows : List Client)
    → All P rows
    → All P (active_clients client_id rows)
unfolding active_clients
active_clients-All P client_id [] h = tt
active_clients-All P client_id (c ∷ cs) (here, rest) =
    let later = active_clients-All P client_id cs rest in
    elim (Bool-cases (c.client_id == client_id && c.is_active)) [
      | inl e ↦ rw e (here, later)
      | inr e ↦ rw e later
    ]

active_clients-named :
    (client_id : String) (rows : List Client)
    → All (λ c. (c.client_id ≡ client_id) × (c.is_active ≡ true)) (active_clients client_id rows)
unfolding active_clients
active_clients-named client_id [] = tt
active_clients-named client_id (c ∷ cs) =
    let later = active_clients-named client_id cs in
    elim (Bool-cases (c.client_id == client_id && c.is_active)) [
      | inl e ↦ rw e (((eq_iff c.client_id client_id).0 (ground arith), ground arith), later)
      | inr e ↦ rw e later
    ]

only_client-All :
    (P : Client → Type 0) (rows : List Client) (c : Client)
    → All P rows
    → only_client rows ≡ client c
    → P c
unfolding only_client
only_client-All P [] c all h = absurd (ground arith)
only_client-All P (x ∷ []) c all h = let same : x ≡ c = ground arith in subst P same all.0
only_client-All P (x ∷ y ∷ rest) c all h = absurd (ground arith)

module _ (client_id : String) (rows : List Client) (c : Client)
    (found : find_client client_id rows ≡ client c) where
  -- What holds of every row holds of the client that is found.
  pub find_client-All : (P : Client → Type 0) → All P rows → P c
  unfolding find_client
  find_client-All P all =
      only_client-All P (active_clients client_id rows) c (active_clients-All P client_id rows all)
        found

  -- The client that is found is active and has the id that was asked for.
  pub find_client-named : (c.client_id ≡ client_id) × (c.is_active ≡ true)
  unfolding find_client
  find_client-named =
      only_client-All (λ x. (x.client_id ≡ client_id) × (x.is_active ≡ true))
        (active_clients client_id rows) c (active_clients-named client_id rows) found
