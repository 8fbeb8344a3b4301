-- ===== src/Core/RateLimit.antt =====
-- core/middleware/rate_limit.py: a fixed window of requests per key, counted in the cache.
pub mod Window
pub mod Middleware
mod Tests
use Prim.Native.String.{◌++◌, compare}
use text.Mathlib.Text.{is_le, starts_with}
use drf_enterprise_informati.Prelude.{
  ℕ, ◌+◌, String, Bool, true, false, Option, none, some, List, [], ◌∷◌, ◌==◌, ltb, if◌then◌else◌,
  is_empty, is_set, any_of, or_default,
}
use drf_enterprise_informati.Core.Cache.{Cache}
use drf_enterprise_informati.Core.PyText.{ℤ, pos, negsuc, split_on, int, lower_eq, codes}

-- `_RATE_PERIODS`, in seconds; `none` for a period that is not in it
abbrev rate_period : String → Option ℕ
rate_period period =
    if lower_eq (codes period) (codes "second")
    then some 1
    else if lower_eq (codes period) (codes "minute")
    then some 60
    else if lower_eq (codes period) (codes "hour")
    then some 3600
    else if lower_eq (codes period) (codes "day")
    then some 86400
    else none

abbrev pub Rate : Type 0
Rate = ℤ × ℕ

abbrev with_period : ℤ → Option ℕ → Option Rate
with_period count none = none
with_period count (some window) = some (count, window)

abbrev with_count : Option ℤ → String → Option Rate
with_count none period = none
with_count (some count) period = with_period count (rate_period period)

abbrev of_parts : List String → Option Rate
of_parts (count ∷ period ∷ []) = with_count (int count) period
of_parts _ = none

-- `none` is the ValueError of an invalid rate
unfoldable pub parse_rate : String → Option Rate
unfolding split_on int lower_eq
parse_rate rate = of_parts (split_on b'/' rate)

-- The chain of `getattr` from the request to the attribute of its view class.
pub data View : Type 0 where
  no_resolver_match no_func no_view_class : View
  view_class : Option Bool → View

pub record Request : Type 0 where
  pub path : String
  -- the primary key of an authenticated user
  pub user : Option String
  pub client_ip : String
  pub view : View

-- `settings.APP_RATE_LIMIT`; a missing key is `none`
pub record Config : Type 0 where
  pub enabled : Option Bool
  pub default_rate : Option String
  pub skip_paths : Option (List String)
  pub use_boundary_scope : Option Bool

get_ident : Option String → String → String
get_ident none client_ip = "ip:" ++ client_ip
get_ident (some pk) client_ip = "user:" ++ pk

-- `sorted(scope.items())`; the keys of a dict differ
insert_item : String × String → List (String × String) → List (String × String)
insert_item item [] = item ∷ []
insert_item item (next ∷ rest) =
    let later = insert_item item rest in
    if is_le (compare item.0 next.0) then item ∷ next ∷ rest else next ∷ later

sorted_items : List (String × String) → List (String × String)
unfolding insert_item
sorted_items [] = []
sorted_items (item ∷ rest) = insert_item item (sorted_items rest)

-- `"|".join(f"{k}={v}" for …)`
join_items : List (String × String) → String
join_items [] = ""
join_items ((k, v) ∷ []) = k ++ "=" ++ v
join_items ((k, v) ∷ item ∷ rest) = (k ++ "=" ++ v) ++ "|" ++ join_items (item ∷ rest)

get_scope_string : Config → List (String × String) → Option String
unfolding sorted_items join_items
get_scope_string cfg scope =
    if or_default cfg.use_boundary_scope false
    then (if is_empty scope then none else some (join_items (sorted_items scope)))
    else none

abbrev plain_key : String → String → String
plain_key ident path = "rate_limit:" ++ ident ++ ":" ++ path

build_key : Option String → String → String → String
build_key none ident path = plain_key ident path
build_key (some scope) ident path =
    if is_set scope
    then "rate_limit:" ++ scope ++ ":" ++ ident ++ ":" ++ path
    else plain_key ident path

-- `enabled is False`
is_view_opted_out : View → Bool
is_view_opted_out (view_class (some false)) = true
is_view_opted_out _ = false

is_skipped_path : Config → String → Bool
is_skipped_path cfg path = any_of (λ p. starts_with path p) (or_default cfg.skip_paths [])

-- The three tests that let a request through without counting it.
pub is_exempt : Config → Request → Bool
unfolding is_view_opted_out is_skipped_path
is_exempt cfg request =
    if or_default cfg.enabled false
    then (if is_view_opted_out request.view then true else is_skipped_path cfg request.path)
    else true

pub key_of : Config → List (String × String) → Request → String
unfolding get_ident get_scope_string build_key
key_of cfg scope request =
    build_key (get_scope_string cfg scope) (get_ident request.user request.client_ip) request.path

-- `new_count > count`
abbrev pub exceeds : ℕ → ℤ → Bool
exceeds new_count (pos count) = ltb count new_count
exceeds new_count (negsuc count) = true

-- When the calls of one request reach the cache.
pub record Moments : Type 0 where
  pub adding : ℕ
  pub incrementing : ℕ
  pub resetting : ℕ
  pub asking : ℕ

pub data Outcome : Type 0 where
  -- `self.get_response(request)`
  forwarded : Outcome
  -- `ThrottlingError(retry_after=…)`
  throttled : ℕ → Outcome
  -- the ValueError of `_parse_rate`
  value_error : Outcome
  -- the AttributeError of `cache.ttl` on a backend without it
  attribute_error : Outcome

module _ (cache : Cache) where
  open cache use {State}

  after_incr : String → ℤ → ℕ → Moments → Option ℕ × State → Bool × State
  after_incr key count window t (some new_count, s) = (exceeds new_count count, s)
  after_incr key count window t (none, s) = (false, cache.set key 1 (some window) t.resetting s)

  after_add : String → ℤ → ℕ → Moments → Bool × State → Bool × State
  unfolding after_incr
  after_add key count window t (true, s) = (false, s)
  after_add key count window t (false, s) =
      after_incr key count window t (cache.incr key t.incrementing s)

  -- `FixedWindowRateLimitMiddleware.is_rate_limited`
  pub is_rate_limited : String → ℤ → ℕ → Moments → State → Bool × State
  unfolding after_add
  is_rate_limited key count window t s =
      after_add key count window t (cache.add key 1 (some window) t.adding s)

  -- `retry_after if retry_after and retry_after > 0 else window`
  retry_after : Option ℕ → ℕ → ℕ
  retry_after none window = window
  retry_after (some left) window = if ltb 0 left then left else window

  refusal : Option (String → ℕ → State → Option ℕ) → String → ℕ → Moments → State → Outcome
  refusal none key window t s = attribute_error
  refusal (some ttl) key window t s = throttled (retry_after (ttl key t.asking s) window)

  decide_request : String → ℕ → Moments → Bool × State → Outcome × State
  unfolding refusal
  decide_request key window t (true, s) = (refusal cache.ttl key window t s, s)
  decide_request key window t (false, s) = (forwarded, s)

  limited : String → Moments → Option Rate → State → Outcome × State
  unfolding decide_request
  limited key t none s = (value_error, s)
  limited key t (some (count, window)) s =
      decide_request key window t (is_rate_limited key count window t s)

  -- `BaseRateLimitMiddleware.__call__`, with the bound scope
  pub call : Config → List (String × String) → Request → Moments → State → Outcome × State
  unfolding limited
  call cfg scope request t s =
      if is_exempt cfg request
      then (forwarded, s)
      else limited (key_of cfg scope request) t
          (parse_rate (or_default cfg.default_rate "10/minute")) s
