-- ===== src/IamAuth/Lockout/Threshold.antt =====
-- When a run of failed logins locks the account.
use drf_enterprise_informati.Prelude.{
  ℕ, suc, ◌+◌, ◌≤◌, String, ◌≡◌, ◌≢◌, refl, true, false, Option, none, some, List, [], ◌∷◌, arith,
  leb, length, All,
}
use drf_enterprise_informati.Core.Cache.{Cache, is_live}
use drf_enterprise_informati.IamAuth.Lockout.{
  Config, Moments, max_attempts, timeout, attempts_key, is_locked, record_failed_attempt,
  record_all,
}
use drf_enterprise_informati.IamAuth.Lockout.Steps.{
  Counted, InWindow, record_first-Counted, record_first-locked, record_next-Counted,
  record_next-locked,
}

-- A key that is live from the opening of the window is live from any later moment.
pub is_live_mono :
    (d : Option ℕ) (start later now : ℕ)
    → start ≤ later
    → is_live d start now ≡ true
    → is_live d later now ≡ true
is_live_mono none start later now h e = refl
is_live_mono (some d) start later now h e = ground arith

module _ (cache : Cache) (cfg : Config) (email : String) where
  open cache use {State, get}

  module _ (enabled : max_attempts cfg ≢ 0) where
    record_all-locked :
        (start n now : ℕ) (ts : List Moments) (s : State)
        → is_live (timeout cfg) start now ≡ true
        → Counted cache cfg email start n s
        → is_locked cache cfg email now s ≡ leb (max_attempts cfg) n
        → All (InWindow cache cfg email start) ts
        → is_locked cache cfg email now (record_all cache cfg email ts s)
          ≡ leb (max_attempts cfg) (length ts + n)
    unfolding record_all
    record_all-locked start n now [] s live c e w = ground arith
    record_all-locked start n now (t ∷ ts) s live c e (w, ws) =
        let s' = record_failed_attempt cache cfg email t s in
        let e' : is_locked cache cfg email now s' ≡ leb (max_attempts cfg) (n + 1) = ground (
          arith,
          record_next-locked cache cfg email enabled start n now t s c w,
          is_live_mono (timeout cfg) start t.locking now w.locking live,
        ) in
        let ih =
          record_all-locked start (n + 1) now ts s' live
            (record_next-Counted cache cfg email enabled start n t s c w) e' ws in
        ground arith

    -- With the lockout enabled, from an account with no counted failure and no lock, a run of
    -- failed logins within one window leaves the account locked, at every moment of the window,
    -- exactly if it has at least `MAX_ATTEMPTS` logins. The lock of the first is written no
    -- earlier than its count.
    pub locked_iff_threshold :
        (t : Moments) (ts : List Moments) (now : ℕ) (s : State)
        → get (attempts_key email) t.adding s ≡ none
        → is_locked cache cfg email now s ≡ false
        → t.adding ≤ t.locking
        → All (InWindow cache cfg email t.adding) ts
        → is_live (timeout cfg) t.adding now ≡ true
        → is_locked cache cfg email now (record_all cache cfg email (t ∷ ts) s)
          ≡ leb (max_attempts cfg) (suc (length ts))
    unfolding record_all
    locked_iff_threshold t ts now s fresh unlocked order ws live =
        let s' = record_failed_attempt cache cfg email t s in
        let e : is_locked cache cfg email now s' ≡ leb (max_attempts cfg) 1 = ground (
          arith,
          record_first-locked cache cfg email enabled t now s fresh,
          is_live_mono (timeout cfg) t.adding t.locking now order live,
        ) in
        let run =
          record_all-locked t.adding 1 now ts s' live
            (record_first-Counted cache cfg email enabled t s fresh) e ws in
        ground arith
