-- ===== src/IamAuth/Login.antt =====
-- apps/iam_auth/views.py: the login and the unlocking of an account, around the lockout. What the
-- inherited `TokenObtainPairView.post` answers to a request is an argument: it checks the password.
pub mod Guesses
pub mod Unlocking
mod Tests
use drf_enterprise_informati.Prelude.{
  ℕ, String, Bool, true, false, Option, none, some, List, [], ◌∷◌, ◌==◌, if◌then◌else◌, Result, ok,
  err, is_set, or_empty,
}
use drf_enterprise_informati.Core.Cache.{Cache}
use drf_enterprise_informati.IamAuth.Lockout.{
  Config, Moments, is_locked, record_failed_attempt, clear_lockout,
}

-- The columns of `AuthAttemptLog` that the view writes.
pub record AuthAttemptLog : Type 0 where
  pub email : String
  pub ip_address : String
  pub success : Bool
  pub failure_reason : Option String

-- The columns of `UserEvent` that the views write.
pub record UserEvent : Type 0 where
  pub user_email : String
  pub category : String
  pub event : String

-- What `super().post` does: a response, `AuthenticationFailed`, or another exception.
pub data Authentication : Type 0 where
  response : Authentication
  authentication_failed : Authentication
  other_error : Authentication

pub data LoginError : Type 0 where
  account_locked invalid_credentials raised : LoginError

pub record Attempt : Type 0 where
  pub email : String
  pub ip : String
  pub checking : ℕ
  pub recording : Moments
  pub credentials : Authentication

pub record Accounts (S : Type 0) : Type 0 where
  pub store : S
  pub log : List AuthAttemptLog
  pub events : List UserEvent

module _ (cache : Cache) (cfg : Config) where
  open cache use {State}

  -- `AuthAttemptLog.objects.create`, newest first
  abbrev logged : Attempt → Bool → Option String → Accounts State → Accounts State
  logged a success reason s = record s {
    log =
        record { email = a.email; ip_address = a.ip; success = success; failure_reason = reason }
        ∷ s.log;
  }

  -- `login_failed.send`, whose receiver `handle_login_failed` records the attempt
  abbrev send_login_failed : Attempt → Accounts State → Accounts State
  send_login_failed a s = record s {
    store = record_failed_attempt cache cfg a.email a.recording s.store;
  }

  after_post :
      Attempt → Authentication → Accounts State → Result LoginError (Unit {0}) × Accounts State
  after_post a authentication_failed s =
      (err invalid_credentials, send_login_failed a (logged a false (some "invalid_credentials") s))
  after_post a other_error s = (err raised, s)
  after_post a response s =
      let s' = logged a true none s in
      (
        ok tt,
        record s' {
          store = clear_lockout cache cfg a.email s'.store;
          events = record { user_email = a.email; category = "auth"; event = "login" } ∷ s'.events;
        },
      )

  pub post : Attempt → Accounts State → Result LoginError (Unit {0}) × Accounts State
  unfolding after_post
  post a s =
      if is_locked cache cfg a.email a.checking s.store
      then (err account_locked, logged a false (some "account_locked") s)
      else after_post a a.credentials s

  -- A run of requests; an error ends only its own request.
  pub post_all : List Attempt → Accounts State → Accounts State
  post_all [] s = s
  post_all (a ∷ rest) s = post_all rest (post a s).1

-- The user of an unlock request: `request.user`, its tenant from the token, and its active admin
-- memberships.
pub record Unlocker : Type 0 where
  pub email : String
  pub is_superuser : Bool
  pub tenant_id : Option String
  pub admin_of : List String

pub data UnlockOutcome : Type 0 where
  no_content forbidden self_unlock_forbidden : UnlockOutcome

-- `request.user.memberships.filter(tenant_id=…, is_active=True, is_admin=True).first()`
abbrev pub is_admin_of : List String → String → Bool
is_admin_of [] tenant = false
is_admin_of (t ∷ ts) tenant = if t == tenant then true else is_admin_of ts tenant

-- The test of a user who is no superuser; an empty tenant id counts as none.
pub may_unlock : Unlocker → Bool
may_unlock user =
    if user.is_superuser
    then true
    else if is_set (or_empty user.tenant_id)
    then is_admin_of user.admin_of (or_empty user.tenant_id)
    else false

module _ (cache : Cache) (cfg : Config) where
  open cache use {State}

  pub unlock : Unlocker → String → Accounts State → UnlockOutcome × Accounts State
  unfolding may_unlock
  unlock user email s =
      if user.email == email
      then (self_unlock_forbidden, s)
      else if may_unlock user
      then (
        no_content,
        record s {
          store = clear_lockout cache cfg email s.store;
          events =
              record { user_email = email; category = "auth"; event = "account_unlocked" }
              ∷ s.events;
        },
      )
      else (forbidden, s)
