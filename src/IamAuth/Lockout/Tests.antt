-- ===== src/IamAuth/Lockout/Tests.antt =====
-- The lockout on a concrete cache: two failed logins lock an account for a minute.
use drf_enterprise_informati.Prelude.{
  ℕ, String, ◌≡◌, ◌≢◌, refl, true, false, some, List, [], ◌∷◌, arith, leb, All, eq_iff,
}
use drf_enterprise_informati.Core.Cache.Table.{Table, table}
use drf_enterprise_informati.IamAuth.Lockout.{
  Config, Moments, max_attempts, attempts_key, locked_key, is_locked, record_failed_attempt,
  record_all,
}
use drf_enterprise_informati.IamAuth.Lockout.Steps.{InWindow}
use drf_enterprise_informati.IamAuth.Lockout.Threshold.{locked_iff_threshold}

abbrev two_a_minute : Config
two_a_minute = record { max_attempts = some 2; lockout_duration = some 60 }

abbrev at : ℕ → Moments
at now = record { adding = now; incrementing = now; resetting = now; locking = now }

abbrev no_keys : Table
no_keys = []

abbrev two_failures : List Moments
two_failures = at 0 ∷ at 20 ∷ []

locks_after_two :
    is_locked table two_a_minute "a@x" 79 (record_all table two_a_minute "a@x" two_failures no_keys)
    ≡ true
unfolding is_locked record_all record_failed_attempt attempts_key locked_key
locks_after_two = refl

enabled : max_attempts two_a_minute ≢ 0
enabled h = absurd (omega arith)

second-InWindow : All (InWindow table two_a_minute "a@x" 0) (at 20 ∷ [])
second-InWindow = (record { adding = refl; incrementing = refl; locking = omega arith }, tt)

never_locked : (now : ℕ) → is_locked table two_a_minute "a@x" now no_keys ≡ false
unfolding is_locked
never_locked now = refl

locked_iff_threshold_example :
    is_locked table two_a_minute "a@x" 59 (record_all table two_a_minute "a@x" two_failures no_keys)
    ≡ leb 2 2
locked_iff_threshold_example =
    locked_iff_threshold table two_a_minute "a@x" enabled (at 0) (at 20 ∷ []) 59 no_keys refl
      (never_locked 59) (omega arith) second-InWindow refl

other_email : ◌≢◌ {A = String} "b@x" "a@x"
other_email h = absurd (ground (arith, eq_iff "b@x" "a@x"))

abbrev locked_store : Table
locked_store = (locked_key "b@x", (1, some 100)) ∷ []
