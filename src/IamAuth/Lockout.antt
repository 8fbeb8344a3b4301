-- ===== src/IamAuth/Lockout.antt =====
-- apps/iam_auth/lockout.py: failed logins are counted in the cache and lock the account.
pub mod Keys
pub mod Steps
pub mod Threshold
pub mod Unlock
mod Tests
use drf_enterprise_informati.Prelude.{
  ℕ, zero, suc, String, Bool, true, false, Option, none, some, List, [], ◌∷◌, ltb, leb, nat_eq,
  if◌then◌else◌, or_default,
}
use Prim.Native.String.{◌++◌}
use drf_enterprise_informati.Core.Cache.{Cache}

-- `_ATTEMPTS_KEY.format(email=email)`
unfoldable pub attempts_key : String → String
attempts_key email = "auth:lockout:attempts:" ++ email

-- `_LOCKED_KEY.format(email=email)`
unfoldable pub locked_key : String → String
locked_key email = "auth:lockout:locked:" ++ email

-- `settings.AUTH_LOCKOUT`; a missing key is `none`
pub record Config : Type 0 where
  pub max_attempts : Option ℕ
  pub lockout_duration : Option ℕ

abbrev default_max_attempts : ℕ
default_max_attempts = 5

abbrev default_lockout_duration : ℕ
default_lockout_duration = 900

-- `int(_config().get(key, default))`
abbrev pub max_attempts : Config → ℕ
max_attempts cfg = or_default cfg.max_attempts default_max_attempts

abbrev pub lockout_duration : Config → ℕ
lockout_duration cfg = or_default cfg.lockout_duration default_lockout_duration

-- `duration if duration > 0 else None`
abbrev pub timeout : Config → Option ℕ
timeout cfg = if ltb 0 (lockout_duration cfg) then some (lockout_duration cfg) else none

-- `bool(value)`
abbrev truth : Option ℕ → Bool
truth none = false
truth (some zero) = false
truth (some (suc n)) = true

-- When the calls of one recorded attempt reach the cache: other keys and the expiry of this one
-- may change between them.
pub record Moments : Type 0 where
  pub adding : ℕ
  pub incrementing : ℕ
  pub resetting : ℕ
  pub locking : ℕ

module _ (cache : Cache) (cfg : Config) where
  open cache use {State}

  unfoldable pub is_locked : String → ℕ → State → Bool
  is_locked email now s = truth (cache.get (locked_key email) now s)

  -- `except ValueError`: the key expired between `add` and `incr`
  pub after_incr : String → Moments → Option ℕ × State → ℕ × State
  after_incr key t (some n, s) = (n, s)
  after_incr key t (none, s) = (1, cache.set key 1 (timeout cfg) t.resetting s)

  pub after_add : String → Moments → Bool × State → ℕ × State
  after_add key t (true, s) = (1, s)
  after_add key t (false, s) = after_incr key t (cache.incr key t.incrementing s)

  pub lock_if_reached : String → Moments → ℕ × State → State
  lock_if_reached email t (new_count, s) =
      if leb (max_attempts cfg) new_count
      then cache.set (locked_key email) 1 (timeout cfg) t.locking s
      else s

  pub record_failed_attempt : String → Moments → State → State
  unfolding after_incr after_add lock_if_reached
  record_failed_attempt email t s =
      if nat_eq (max_attempts cfg) 0
      then s
      else lock_if_reached email t (
          after_add (attempts_key email) t
            (cache.add (attempts_key email) 1 (timeout cfg) t.adding s))

  -- The failed logins of one account, in order.
  pub record_all : String → List Moments → State → State
  record_all email [] s = s
  record_all email (t ∷ ts) s = record_all email ts (record_failed_attempt email t s)

  unfoldable pub clear_lockout : String → State → State
  clear_lockout email s = cache.delete (locked_key email) (cache.delete (attempts_key email) s)
