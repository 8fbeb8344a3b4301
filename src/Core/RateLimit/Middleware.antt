-- ===== src/Core/RateLimit/Middleware.antt =====
-- The middleware around the window: who shares a counter, and what a refused request is told.
use Prim.Native.Char.{code}
use Prim.Native.String.{◌++◌}
use text.Mathlib.TextLemmas.{
  append_cancel_left, append_cancel_right, cons-append, head-eq_of_cons-eq,
}
use drf_enterprise_informati.Prelude.{
  ℕ, ◌<◌, String, ◌≡◌, ◌≢◌, refl, sym, ap, ◌∙◌, true, false, Option, none, some, List, [], ◌∷◌,
  arith, Bool-cases, Option-cases, inl, inr, ◌⊎◌, is_set, or_default,
}
use drf_enterprise_informati.Core.Cache.{Cache}
use drf_enterprise_informati.Core.PyText.{ℤ, int, split_on}
use drf_enterprise_informati.Core.RateLimit.{
  Config, Request, Moments, forwarded, throttled, attribute_error, Rate, parse_rate, rate_period,
  with_period, of_parts, get_ident, build_key, plain_key, get_scope_string, is_exempt, key_of,
  is_rate_limited, retry_after, refusal, decide_request, limited, call,
}

-- Who a request comes from: its user, or its address if it has none.
abbrev pub SameClient : Request → Request → Type 0
SameClient a b =
    ((pk : String) × (a.user ≡ some pk) × (b.user ≡ some pk))
    ⊎ ((a.user ≡ none) × (b.user ≡ none) × (a.client_ip ≡ b.client_ip))

letters_differ : (a b : String) → "user:" ++ a ≢ "ip:" ++ b
letters_differ a b h =
    let e : code "u" ≡ code "i" =
      ap code (head-eq_of_cons-eq (sym (cons-append "u" "ser:" a) ∙ h ∙ cons-append "i" "p:" b)) in
    absurd (omega arith)

get_ident-injective :
    (u v : Option String) (i j : String)
    → get_ident u i ≡ get_ident v j
    → ((pk : String) × (u ≡ some pk) × (v ≡ some pk)) ⊎ ((u ≡ none) × (v ≡ none) × (i ≡ j))
unfolding get_ident
get_ident-injective none none i j h = inr (refl, refl, append_cancel_left "ip:" i j h)
get_ident-injective none (some v) i j h = absurd (letters_differ v i (sym h))
get_ident-injective (some u) none i j h = absurd (letters_differ u j h)
get_ident-injective (some u) (some v) i j h =
    inl (u, refl, ap some (append_cancel_left "user:" v u (sym h)))

plain_key-injective : (a b path : String) → plain_key a path ≡ plain_key b path → a ≡ b
plain_key-injective a b path h =
    append_cancel_right a b (":" ++ path) (append_cancel_left "rate_limit:" _ _ h)

build_key-injective :
    (scope : Option String) (a b path : String)
    → build_key scope a path ≡ build_key scope b path
    → a ≡ b
unfolding build_key
build_key-injective none a b path h = plain_key-injective a b path h
build_key-injective (some s) a b path h = elim (Bool-cases (is_set s)) [
  | inl e ↦ append_cancel_right a b (":" ++ path) (
      append_cancel_left ":" _ _
        (append_cancel_left s _ _ (append_cancel_left "rate_limit:" _ _ (rw e at h))))
  | inr e ↦ plain_key-injective a b path (rw e at h)
]

-- Under one scope and path two requests share a counter only if they come from one client.
pub key_of_separates :
    (cfg : Config) (scope : List (String × String)) (a b : Request)
    → a.path ≡ b.path
    → key_of cfg scope a ≡ key_of cfg scope b
    → SameClient a b
unfolding key_of
key_of_separates cfg scope a b same h = get_ident-injective a.user b.user a.client_ip b.client_ip (
    build_key-injective (get_scope_string cfg scope) (get_ident a.user a.client_ip)
      (get_ident b.user b.client_ip) b.path (rw same at h))

with_period_window :
    (z count : ℤ) (window : ℕ) (period : String)
    → with_period z (rate_period period) ≡ some (count, window)
    → 0 < window
with_period_window z count window period e = ground arith

of_parts_window :
    (parts : List String) (count : ℤ) (window : ℕ)
    → of_parts parts ≡ some (count, window)
    → 0 < window
of_parts_window (a ∷ b ∷ []) count window e = elim (Option-cases (int a)) [
  | inl bad ↦ cc (rw bad at e)
  | inr (z, good) ↦ with_period_window z count window b (rw good at e)
]
of_parts_window _ count window e = cc

-- The window of a rate that can be read is one of the four periods.
parse_rate_window :
    (rate : String) (count : ℤ) (window : ℕ) → parse_rate rate ≡ some (count, window) → 0 < window
unfolding parse_rate
parse_rate_window rate count window h = of_parts_window (split_on b'/' rate) count window h

abbrev rate_of : Config → Option Rate
rate_of cfg = parse_rate (or_default cfg.default_rate "10/minute")

module _ (cache : Cache) (cfg : Config) (scope : List (String × String)) (request : Request)
    (t : Moments) (s : cache.State) where
  -- Why a request was refused, and for how long.
  pub record IsRefused (wait : ℕ) : Type 0 where
    pub counted : is_exempt cfg request ≡ false
    pub rate : Rate
    pub parsed : rate_of cfg ≡ some rate
    pub over : (is_rate_limited cache (key_of cfg scope request) rate.0 rate.1 t s).0 ≡ true
    pub later : 0 < wait

  limited-IsRefused :
      (wait : ℕ)
      → is_exempt cfg request ≡ false
      → (limited cache (key_of cfg scope request) t (rate_of cfg) s).0 ≡ throttled wait
      → IsRefused wait
  unfolding limited decide_request refusal retry_after
  limited-IsRefused wait counted h = elim (Option-cases (rate_of cfg)) [
    | inl bad ↦ cc (rw (bad, limited) at h)
    | inr ((count, window), good) ↦
        elim (Bool-cases (is_rate_limited cache (key_of cfg scope request) count window t s).0) [
          | inl over ↦ record {
            counted = counted;
            rate = (count, window);
            parsed = good;
            over = over;
            later = elim (Option-cases cache.ttl) [
              | inl no_method ↦ absurd (ground (arith, no_method))
              | inr (ttl, e) ↦ ground (
                arith,
                e,
                parse_rate_window (or_default cfg.default_rate "10/minute") count window good,
              )
            ];
          }
          | inr under ↦ absurd (ground arith)
        ]
  ]

  -- On a backend without `ttl` no request is told to wait: one over the limit raises an
  -- AttributeError in its place.
  pub never_throttled :
      cache.ttl ≡ none
      → ((wait : ℕ) → (call cache cfg scope request t s).0 ≢ throttled wait)
        × ((wait : ℕ) → IsRefused wait → (call cache cfg scope request t s).0 ≡ attribute_error)
  unfolding call limited decide_request refusal
  never_throttled no_method = (
    λ wait h. elim (Bool-cases (is_exempt cfg request)) [
      | inl free ↦ absurd (ground arith)
      | inr counted ↦ elim (Option-cases (rate_of cfg)) [
        | inl bad ↦ cc (rw (counted, bad) at h)
        | inr ((count, window), good) ↦
            elim (Bool-cases
              (is_rate_limited cache (key_of cfg scope request) count window t s).0) [
                | inl over ↦ absurd (ground (arith, no_method))
                | inr under ↦ absurd (ground arith)
              ]
      ]
    ],
    λ wait refused.
        let limit = refused.parsed in
        ground (arith, refused.counted, limit, refused.over, no_method),
  )

  -- A request is refused only if it is counted at all and its key has passed the limit of the
  -- configured rate, and the wait that it is told is not zero. An exempt request goes through and
  -- touches no counter.
  pub throttled_only_over_limit :
      ((wait : ℕ) → (call cache cfg scope request t s).0 ≡ throttled wait → IsRefused wait)
      × (is_exempt cfg request ≡ true → call cache cfg scope request t s ≡ (forwarded, s))
  unfolding call
  throttled_only_over_limit = (
    λ wait h. elim (Bool-cases (is_exempt cfg request)) [
      | inl free ↦ absurd (ground arith)
      | inr counted ↦ limited-IsRefused wait counted (rw counted at h)
    ],
    λ free. rw free,
  )
