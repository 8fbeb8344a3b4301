-- ===== src/IamAuth/Passwords.antt =====
-- apps/iam_auth/serializers.py: `PasswordChangeSerializer`, with the history of passwords of
-- apps/iam_auth/models.py and the receiver of `password_changed` in apps/iam_auth/signals.py. The
-- hashing of passwords and the parsing of the policy are arguments.
pub mod History
mod Tests
use drf_enterprise_informati.Prelude.{
  ℕ, String, Bool, true, false, ◌&&◌, not, Option, none, some, List, [], ◌∷◌, ◌==◌, is_set,
  or_empty, is_empty, any_of, take, contains, if◌then◌else◌, Dict, get, pop_key, Result, ok, err,
  ◌>>=◌, ◌>>◌, raise_if,
}
use drf_enterprise_informati.Core.Cache.{Cache}
use drf_enterprise_informati.Core.Security.{Setting, Flaw, validate_password_complexity}
use drf_enterprise_informati.IamAuth.Lockout.{Config, clear_lockout}

-- `check_password(password, hash)` and the hash that `set_password` stores. A hash of a password
-- matches the password.
pub record Hasher : Type 0 where
  pub check : String → String → Bool
  pub make : String → String

pub data PasswordError : Type 0 where
  incorrect mismatch reused policy_error : PasswordError
  too_weak : List Flaw → PasswordError

-- The user's row, the entries of the history, newest first, and the expiry dates that an
-- administrator has set, by tenant.
pub record Account (S : Type 0) : Type 0 where
  pub email : String
  pub password : String
  pub history : List String
  pub password_expires_at : Dict String
  pub store : S

-- The request: the tenant of its token, and the text of that tenant's password policy.
pub record ChangeRequest : Type 0 where
  pub old_password : String
  pub new_password : String
  pub new_password_confirmation : String
  pub tenant_id : Option String
  pub policy : Option String

abbrev pub password_history_limit : ℕ
password_history_limit = 5

abbrev loaded : Option (Dict Setting) → Result PasswordError (Dict Setting)
loaded none = err policy_error
loaded (some config) = ok config

abbrev judged : Option (List Flaw) → Result PasswordError (Unit {0})
judged none = err policy_error
judged (some flaws) = raise_if (not (is_empty flaws)) (too_weak flaws)

module _ (hasher : Hasher) (loads : String → Option (Dict Setting)) where
  -- The configuration of the tenant; without a tenant or a policy, the defaults.
  abbrev pub config_of : ChangeRequest → Result PasswordError (Dict Setting)
  config_of request =
      if is_set (or_empty request.tenant_id) && is_set (or_empty request.policy)
      then loaded (loads (or_empty request.policy))
      else ok []

  -- The loop over the recent entries.
  abbrev pub is_reused : String → List String → Bool
  is_reused password history =
      any_of (λ hash. hasher.check password hash) (take password_history_limit history)

  -- `validate_old_password` and `validate`
  unfoldable pub validate :
      {S : Type 0} → ChangeRequest → Account S → Result PasswordError (Unit {0})
  unfolding validate_password_complexity
  validate request account =
      raise_if (not (hasher.check request.old_password account.password)) incorrect
      >> (raise_if (not (request.new_password == request.new_password_confirmation)) mismatch
          >> (config_of request >>= λ config.
              judged (validate_password_complexity request.new_password config)
              >> raise_if (is_reused request.new_password account.history) reused))

module _ (hasher : Hasher) (loads : String → Option (Dict Setting)) (cache : Cache)
    (cfg : Config) where
  open cache use {State}

  abbrev forgotten : Option String → List String → Dict String → Dict String
  forgotten tenant_id tenants dates =
      if is_set (or_empty tenant_id) && contains (or_empty tenant_id) tenants
      then pop_key (or_empty tenant_id) dates
      else dates

  -- `save`; `tenants` are the ids of the tenants there are. The receiver of `password_changed`
  -- clears the lockout.
  unfoldable pub save : List String → ChangeRequest → Account State → Account State
  unfolding clear_lockout
  save tenants request account = record account {
    password = hasher.make request.new_password;
    history = account.password ∷ account.history;
    password_expires_at = forgotten request.tenant_id tenants account.password_expires_at;
    store = clear_lockout cache cfg account.email account.store;
  }

  unfoldable pub answer :
      List String
      → ChangeRequest
      → Account State
      → Result PasswordError (Unit {0})
      → Result PasswordError (Unit {0}) × Account State
  unfolding save
  answer tenants request account (err e) = (err e, account)
  answer tenants request account (ok _) = (ok tt, save tenants request account)

  -- The whole request: what is refused changes nothing.
  unfoldable pub change :
      List String → ChangeRequest → Account State → Result PasswordError (Unit {0}) × Account State
  unfolding answer validate
  change tenants request account =
      answer tenants request account (validate hasher loads request account)

  -- A run of requests of one user; an error ends only its own request.
  unfoldable pub change_all : List String → List ChangeRequest → Account State → Account State
  unfolding change
  change_all tenants [] account = account
  change_all tenants (request ∷ rest) account =
      change_all tenants rest (change tenants request account).1
