-- ===== src/IamAuth/Login/Guesses.antt =====
-- How many passwords a run of requests gets to try.
use drf_enterprise_informati.Prelude.{
  ℕ, suc, ◌+◌, ◌-◌, ◌≤◌, String, ◌≡◌, ◌≢◌, Bool, true, false, Option, none, some, List, [], ◌∷◌,
  arith, ◌==◌, leb, if◌then◌else◌, Bool-cases, inl, inr, length, All,
}
use Prim.Native.Nat.{min}
use drf_enterprise_informati.Core.Cache.{Cache, is_live}
use drf_enterprise_informati.IamAuth.Lockout.{
  Config, max_attempts, timeout, attempts_key, is_locked, record_failed_attempt,
}
use drf_enterprise_informati.IamAuth.Lockout.Steps.{
  Counted, InWindow, record_first-Counted, record_first-locked, record_next-Counted,
  record_next-locked,
}
use drf_enterprise_informati.IamAuth.Lockout.Threshold.{is_live_mono}
use drf_enterprise_informati.IamAuth.Login.{
  AuthAttemptLog, authentication_failed, Attempt, Accounts, post, post_all,
}

abbrev is_refusal : Option String → Bool
is_refusal none = false
is_refusal (some reason) = reason == "invalid_credentials"

-- The entries of the log that stand for a tried and refused password.
abbrev pub refused : List AuthAttemptLog → ℕ
refused [] = 0
refused (e ∷ es) = if is_refusal e.failure_reason then suc (refused es) else refused es

module _ (cache : Cache) (cfg : Config) (email : String) where
  open cache use {State, get}

  -- A request for this account with a wrong password, all of it within the window.
  pub record Guess (start : ℕ) (a : Attempt) : Type 0 where
    pub account : a.email ≡ email
    pub wrong : a.credentials ≡ authentication_failed
    pub checking : is_live (timeout cfg) start a.checking ≡ true
    pub window : InWindow cache cfg email start a.recording

  -- `n` failures are counted, and the account is locked exactly from the threshold on.
  pub record Guarded (start n : ℕ) (s : Accounts State) : Type 0 where
    pub counted : Counted cache cfg email start n s.store
    pub guard :
        (now : ℕ)
        → is_live (timeout cfg) start now ≡ true
        → is_locked cache cfg email now s.store ≡ leb (max_attempts cfg) n

  module _ (enabled : max_attempts cfg ≢ 0) (start n : ℕ) (a : Attempt) (s : Accounts State)
      (g : Guess start a) (v : Guarded start n s) where
    post_when_locked :
        leb (max_attempts cfg) n ≡ true
        → ((post cache cfg a s).1.store ≡ s.store)
          × (refused (post cache cfg a s).1.log ≡ refused s.log)
    unfolding post
    post_when_locked full = rw (g.account) (ground (arith, v.guard a.checking g.checking))

    store_when_open :
        leb (max_attempts cfg) n ≡ false
        → ((post cache cfg a s).1.store ≡ record_failed_attempt cache cfg email a.recording s.store)
          × (refused (post cache cfg a s).1.log ≡ refused s.log + 1)
    unfolding post
    store_when_open room = rw g.account (ground (arith, g.wrong, v.guard a.checking g.checking))

    post_when_open : leb (max_attempts cfg) n ≡ false → Guarded start (n + 1) (post cache cfg a s).1
    post_when_open room = record {
      counted = rw (store_when_open room).0 (
          record_next-Counted cache cfg email enabled start n a.recording s.store v.counted
            g.window);
      guard = λ now live. rw (store_when_open room).0 (
          ground (
            arith,
            v.guard now live,
            g.window.locking,
            record_next-locked cache cfg email enabled start n now a.recording s.store v.counted
                g.window,
            is_live_mono (timeout cfg) start a.recording.locking now g.window.locking live,
          ));
    }

    keep_locked : leb (max_attempts cfg) n ≡ true → Guarded start n (post cache cfg a s).1
    keep_locked full = record {
      counted = rw (post_when_locked full).0 v.counted;
      guard = rw (post_when_locked full).0 v.guard;
    }

  module _ (enabled : max_attempts cfg ≢ 0) where
    refused-post_all :
        (start n : ℕ) (rest : List Attempt) (s : Accounts State)
        → All (Guess start) rest
        → Guarded start n s
        → refused (post_all cache cfg rest s).log
          ≡ refused s.log + min (max_attempts cfg - n) (length rest)
    unfolding post_all
    refused-post_all start n [] s gs v = omega arith
    refused-post_all start n (a ∷ rest) s (g, gs) v = elim (Bool-cases (leb (max_attempts cfg) n)) [
      | inl full ↦ ground (
        arith,
        post_when_locked enabled start n a s g v full,
        refused-post_all start n rest (post cache cfg a s).1 gs
            (keep_locked enabled start n a s g v full),
      )
      | inr room ↦ ground (
        arith,
        store_when_open enabled start n a s g v room,
        refused-post_all start (n + 1) rest (post cache cfg a s).1 gs
            (post_when_open enabled start n a s g v room),
      )
    ]

    module _ (a : Attempt) (s : Accounts State) (same : a.email ≡ email)
        (wrong : a.credentials ≡ authentication_failed)
        (fresh : get (attempts_key email) a.recording.adding s.store ≡ none)
        (unlocked : (now : ℕ) → is_locked cache cfg email now s.store ≡ false) where
      store_first :
          ((post cache cfg a s).1.store ≡ record_failed_attempt cache cfg email a.recording s.store)
          × (refused (post cache cfg a s).1.log ≡ refused s.log + 1)
      unfolding post
      store_first = rw same (ground (arith, wrong, unlocked a.checking))

      first-Guarded :
          a.recording.adding ≤ a.recording.locking
          → Guarded a.recording.adding 1 (post cache cfg a s).1
      first-Guarded order = record {
        counted =
            rw store_first.0
              (record_first-Counted cache cfg email enabled a.recording s.store fresh);
        guard = λ now live. rw store_first.0 (
            ground (
              arith,
              unlocked now,
              record_first-locked cache cfg email enabled a.recording now s.store fresh,
              is_live_mono (timeout cfg) a.recording.adding a.recording.locking now order live,
            ));
      }

    -- With the lockout enabled, for an account that is not locked and has no counted failure, a
    -- run of requests with wrong passwords within one window tries exactly `MAX_ATTEMPTS` of
    -- them, or all if they are fewer: the view refuses the rest without looking at the password.
    -- The lock of the first is written no earlier than its count.
    pub guesses_bounded :
        (a : Attempt) (rest : List Attempt) (s : Accounts State)
        → a.email ≡ email
        → a.credentials ≡ authentication_failed
        → get (attempts_key email) a.recording.adding s.store ≡ none
        → ((now : ℕ) → is_locked cache cfg email now s.store ≡ false)
        → a.recording.adding ≤ a.recording.locking
        → All (Guess a.recording.adding) rest
        → refused (post_all cache cfg (a ∷ rest) s).log
          ≡ refused s.log + min (max_attempts cfg) (suc (length rest))
    unfolding post_all
    guesses_bounded a rest s same wrong fresh unlocked order gs = ground (
      arith,
      store_first a s same wrong fresh unlocked,
      refused-post_all a.recording.adding 1 rest (post cache cfg a s).1 gs
          (first-Guarded a s same wrong fresh unlocked order),
    )
