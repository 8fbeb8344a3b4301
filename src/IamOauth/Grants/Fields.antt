-- ===== src/IamOauth/Grants/Fields.antt =====
-- The fields of a request, and the client that is found for it.
use drf_enterprise_informati.Prelude.{
  String, ◌≡◌, ◌≢◌, refl, Bool, true, false, Option, none, some, List, [], ◌∷◌, arith, eq_iff, ◌==◌,
  ok, >>=-eq-ok, is_set, is_set_iff, or_empty, Bool-cases, inl, inr, All, where_,
}
use drf_enterprise_informati.IamOauth.Model.{Client}
use drf_enterprise_informati.IamOauth.Refresh.{FoundClient, no_client, client, several, find_client}
use drf_enterprise_informati.IamOauth.Refresh.Clients.{find_client-All, find_client-named}
use drf_enterprise_informati.IamOauth.Grants.{
  strip, has_nul, required_field, optional_field, url_field, scoped, active, active_client,
}

-- A required field: a text was sent that is not blank, and `value` is that text, stripped.
pub record IsSent (sent : Option String) (value : String) : Type 0 where
  pub text : String
  pub given : sent ≡ some text
  pub stripped : value ≡ strip text
  pub visible : value ≢ ""
  pub printable : has_nul value ≡ false

-- An optional field: the text that was sent, stripped, or the empty text.
pub record IsRead (sent : Option String) (value : String) : Type 0 where
  pub stripped : value ≡ strip (or_empty sent)
  pub printable : has_nul value ≡ false

pub required_field-IsSent :
    (sent : Option String) (value : String) → required_field sent ≡ ok value → IsSent sent value
unfolding required_field
required_field-IsSent none value h = absurd (ground arith)
required_field-IsSent (some text) value h =
    let same : strip text ≡ value = ground arith in
    rw (← same) (record {
      text = text;
      given = refl;
      stripped = refl;
      visible = (is_set_iff (strip text)).0 (ground arith);
      printable = ground arith;
    })

pub IsSent-required_field :
    (sent : Option String) (value : String) → IsSent sent value → required_field sent ≡ ok value
unfolding required_field
IsSent-required_field sent value s =
    let v : is_set (strip s.text) ≡ true =
      (is_set_iff (strip s.text)).1 (rw (s.stripped) at s.visible) in
    let p : has_nul (strip s.text) ≡ false = rw (s.stripped) at s.printable in
    rw (s.given) (rw (v, p, s.stripped) refl)

pub optional_field-IsRead :
    (sent : Option String) (value : String) → optional_field sent ≡ ok value → IsRead sent value
unfolding optional_field strip has_nul
optional_field-IsRead none value h =
    let same : "" ≡ value = ground arith in
    rw (← same) (record { stripped = refl; printable = refl })
optional_field-IsRead (some text) value h =
    let same : strip text ≡ value = ground arith in
    rw (← same) (record { stripped = refl; printable = ground arith })

pub IsRead-optional_field :
    (sent : Option String) (value : String) → IsRead sent value → optional_field sent ≡ ok value
unfolding optional_field strip
IsRead-optional_field none value r = rw (r.stripped) refl
IsRead-optional_field (some text) value r =
    let p : has_nul (strip text) ≡ false = rw (r.stripped) at r.printable in rw (p, r.stripped) refl

pub url_field-IsRead :
    (is_url : String → Bool) (sent : Option String) (value : String)
    → url_field is_url sent ≡ ok value
    → IsRead sent value × (value ≢ "" → is_url value ≡ true)
unfolding url_field
url_field-IsRead is_url sent value h =
    let (url, read, h') = >>=-eq-ok (optional_field sent) _ h in
    let same : url ≡ value = ground arith in
    rw (← same)
      (optional_field-IsRead sent url read, λ visible. ground (arith, (is_set_iff url).1 visible))

where-All : (p : Client → Bool) (rows : List Client) → All (λ c. p c ≡ true) (where_ p rows)
where-All p [] = tt
where-All p (c ∷ cs) = elim (Bool-cases (p c)) [
  | inl e ↦ rw e (e, where-All p cs)
  | inr e ↦ rw e (where-All p cs)
]

active-client : (f : FoundClient) (c : Client) → active f ≡ ok c → f ≡ client c
unfolding active
active-client no_client c h = absurd (ground arith)
active-client (client x) c h = let same : x ≡ c = ground arith in rw same refl
active-client several c h = absurd (ground arith)

-- The client that a request finds is active, has the id that was asked for and, where a token
-- binds a tenant, is that tenant's.
pub active_client-scoped :
    (client_id : String) (bound : Option String) (clients : List Client) (c : Client)
    → active_client client_id (scoped bound clients) ≡ ok c
    → (c.client_id ≡ client_id)
      × (c.is_active ≡ true)
      × (or_empty bound ≢ "" → c.tenant_id ≡ or_empty bound)
unfolding active_client scoped
active_client-scoped client_id bound clients c h =
    let found = active-client (find_client client_id (scoped bound clients)) c h in
    let (named, live) = find_client-named client_id (scoped bound clients) c found in
    (
      named,
      live,
      λ given.
          let e : is_set (or_empty bound) ≡ true = (is_set_iff (or_empty bound)).1 given in
          (eq_iff c.tenant_id (or_empty bound)).0 (
            find_client-All client_id (scoped bound clients) c found
              (λ x. (x.tenant_id == or_empty bound) ≡ true)
              (rw (e) (where-All (λ x. x.tenant_id == or_empty bound) clients))),
    )
