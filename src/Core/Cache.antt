-- ===== src/Core/Cache.antt =====
-- `django.core.cache.cache` over Redis, which the source only calls: its operations on an abstract
-- state, with the documented behaviour that the callers rely on. A call happens at a moment in
-- seconds. A timeout of `none` means that the key never expires.
pub mod Table
use drf_enterprise_informati.Prelude.{
  ℕ, ◌+◌, ◌-◌, String, ◌≡◌, Bool, true, false, Option, none, some, ◌==◌, ltb, if◌then◌else◌,
  is_some,
}

-- Whether a key written at `now` is still there at `later`.
abbrev pub is_live : Option ℕ → ℕ → ℕ → Bool
is_live none now later = true
is_live (some timeout) now later = ltb later (now + timeout)

pub record Cache : Type 1 where
  pub State : Type 0
  -- `cache.get(key)`
  pub get : String → ℕ → State → Option ℕ
  -- `cache.set(key, value, timeout)`
  pub set : String → ℕ → Option ℕ → ℕ → State → State
  -- `cache.add(key, value, timeout)`
  pub add : String → ℕ → Option ℕ → ℕ → State → Bool × State
  -- `cache.incr(key)`; `none` is the ValueError of a missing key
  pub incr : String → ℕ → State → Option ℕ × State
  -- `cache.delete(key)`
  pub delete : String → State → State
  -- `cache.ttl(key)`, `none` for a key that never expires; a method that only some backends have
  -- (Django's RedisCache has none, django-redis has it)
  pub ttl : Option (String → ℕ → State → Option ℕ)
  pub get-set :
      (k j : String) (v : ℕ) (timeout : Option ℕ) (now later : ℕ) (s : State)
      → get j later (set k v timeout now s)
        ≡ (if k == j then (if is_live timeout now later then some v else none) else get j later s)
  -- A key that is there is left alone.
  pub add_lem :
      (k : String) (v : ℕ) (timeout : Option ℕ) (now : ℕ) (s : State)
      → add k v timeout now s
        ≡ (if is_some (get k now s) then (false, s) else (true, set k v timeout now s))
  pub incr-none : (k : String) (now : ℕ) (s : State) → get k now s ≡ none → incr k now s ≡ (none, s)
  pub incr-some :
      (k : String) (now n : ℕ) (s : State) → get k now s ≡ some n → (incr k now s).0 ≡ some (n + 1)
  -- An increment keeps the key's expiry.
  pub get-incr :
      (k j : String) (now later n : ℕ) (s : State)
      → get k now s ≡ some n
      → get j later (incr k now s).1 ≡ (
          if k == j
          then (if is_some (get k later s) then some (n + 1) else none)
          else get j later s)
  pub get-delete :
      (k j : String) (now : ℕ) (s : State)
      → get j now (delete k s) ≡ (if k == j then none else get j now s)
