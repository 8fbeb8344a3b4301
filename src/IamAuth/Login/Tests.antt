-- ===== src/IamAuth/Login/Tests.antt =====
-- Logins and unlocking on a concrete cache.
use drf_enterprise_informati.Prelude.{ℕ, ◌≡◌, ◌≢◌, refl, false, some, [], ◌∷◌, ◌+◌, arith}
use Prim.Native.Nat.{min}
use drf_enterprise_informati.Core.Cache.Table.{Table, table}
use drf_enterprise_informati.IamAuth.Lockout.{Config, Moments, max_attempts, is_locked, locked_key}
use drf_enterprise_informati.IamAuth.Login.{
  Attempt, Accounts, authentication_failed, post_all, Unlocker,
}
use drf_enterprise_informati.IamAuth.Login.Guesses.{Guess, refused, guesses_bounded}

abbrev two_a_minute : Config
two_a_minute = record { max_attempts = some 2; lockout_duration = some 60 }

abbrev at : ℕ → Moments
at now = record { adding = now; incrementing = now; resetting = now; locking = now }

abbrev guess : ℕ → Attempt
guess now = record {
  email = "a@x";
  ip = "10.0.0.1";
  checking = now;
  recording = at now;
  credentials = authentication_failed;
}

abbrev empty_accounts : Accounts Table
empty_accounts = record { store = []; log = []; events = [] }

enabled : max_attempts two_a_minute ≢ 0
enabled h = absurd (omega arith)

abbrev NeverLocked : Type 0
NeverLocked = (now : ℕ) → is_locked table two_a_minute "a@x" now [] ≡ false

unlocked : NeverLocked
unfolding is_locked
unlocked now = refl

in_window_1 : Guess table two_a_minute "a@x" 0 (guess 1)
in_window_1 = record {
  account = refl;
  wrong = refl;
  checking = refl;
  window = record { adding = refl; incrementing = refl; locking = omega arith };
}

in_window_2 : Guess table two_a_minute "a@x" 0 (guess 2)
in_window_2 = record {
  account = refl;
  wrong = refl;
  checking = refl;
  window = record { adding = refl; incrementing = refl; locking = omega arith };
}

guesses_bounded_example :
    refused (post_all table two_a_minute (guess 0 ∷ guess 1 ∷ guess 2 ∷ []) empty_accounts).log
    ≡ 0 + min 2 3
guesses_bounded_example =
    guesses_bounded table two_a_minute "a@x" enabled (guess 0) (guess 1 ∷ guess 2 ∷ [])
      empty_accounts refl refl refl unlocked (omega arith) (in_window_1, (in_window_2, tt))

abbrev admin : Unlocker
admin = record {
  email = "admin@x";
  is_superuser = false;
  tenant_id = some "t1";
  admin_of = "t0" ∷ "t1" ∷ [];
}

abbrev locked_accounts : Accounts Table
locked_accounts = record { store = (locked_key "a@x", (1, some 100)) ∷ []; log = []; events = [] }
