-- ===== src/IamAuth/Lockout/Unlock.antt =====
-- How a lock ends, and what one account's lock has to do with another's.
use drf_enterprise_informati.Prelude.{
  ℕ, String, ◌≡◌, ◌≢◌, sym, false, none, List, [], ◌∷◌, arith, eq_iff, eq_refl, Option-cases, inl,
  inr, All,
}
use drf_enterprise_informati.Core.Cache.{Cache, is_live}
use drf_enterprise_informati.IamAuth.Lockout.{
  Config, Moments, timeout, attempts_key, locked_key, is_locked, record_failed_attempt, record_all,
  clear_lockout, after_add, after_incr, lock_if_reached,
}
use drf_enterprise_informati.IamAuth.Lockout.Keys.{
  attempts_key-injective, locked_key-injective, attempts_key-ne-locked_key,
}

module _ (cache : Cache) (cfg : Config) where
  open cache use {State, get, set, incr, add, get-set, add_lem, incr-none, get-incr, get-delete}

  module _ (k email : String) (other : k ≢ attempts_key email) where
    get-after_incr :
        (t : Moments) (now : ℕ) (s : State)
        → get k now
            (after_incr cache cfg
              (attempts_key email)
              t
              (incr (attempts_key email) t.incrementing s)).1
          ≡ get k now s
    unfolding after_incr
    get-after_incr t now s = elim (Option-cases (get (attempts_key email) t.incrementing s)) [
      | inl e ↦ ground (
        arith,
        incr-none (attempts_key email) t.incrementing s e,
        get-set (attempts_key email) k 1 (timeout cfg) t.resetting now s,
        eq_iff (attempts_key email) k,
      )
      | inr (n, e) ↦ ground (
        arith,
        get-incr (attempts_key email) k t.incrementing now n s e,
        eq_iff (attempts_key email) k,
        get-set (attempts_key email) k 1 (timeout cfg) t.resetting now
            (incr (attempts_key email) t.incrementing s).1,
      )
    ]

    get-after_add :
        (t : Moments) (now : ℕ) (s : State)
        → get k now
            (after_add cache cfg
              (attempts_key email)
              t
              (add (attempts_key email) 1 (timeout cfg) t.adding s)).1
          ≡ get k now s
    unfolding after_add
    get-after_add t now s = ground (
      arith,
      add_lem (attempts_key email) 1 (timeout cfg) t.adding s,
      get-after_incr t now s,
      get-set (attempts_key email) k 1 (timeout cfg) t.adding now s,
      eq_iff (attempts_key email) k,
    )

    -- A key that is neither of the account's two keys is left alone.
    get-record :
        (t : Moments) (now : ℕ) (s : State)
        → k ≢ locked_key email
        → get k now (record_failed_attempt cache cfg email t s) ≡ get k now s
    unfolding record_failed_attempt lock_if_reached
    get-record t now s apart =
        let counted =
          after_add cache cfg (attempts_key email) t
            (add (attempts_key email) 1 (timeout cfg) t.adding s) in
        ground (
          arith,
          get-after_add t now s,
          get-set (locked_key email) k 1 (timeout cfg) t.locking now counted.1,
          eq_iff (locked_key email) k,
        )

  locked_ne_attempts : (a b : String) → locked_key a ≢ attempts_key b
  locked_ne_attempts a b h = attempts_key-ne-locked_key b a (sym h)

  -- A failed login of one account changes neither the lock nor the counter of another.
  pub record_elsewhere :
      (email other : String) (t : Moments) (now : ℕ) (s : State)
      → other ≢ email
      → (is_locked cache cfg other now (record_failed_attempt cache cfg email t s)
          ≡ is_locked cache cfg other now s)
        × (get (attempts_key other) now (record_failed_attempt cache cfg email t s)
            ≡ get (attempts_key other) now s)
  unfolding is_locked
  record_elsewhere email other t now s apart = (
    ground (
      arith,
      get-record (locked_key other) email (locked_ne_attempts other email) t now s
          (λ h. apart (locked_key-injective other email h)),
    ),
    get-record (attempts_key other) email (λ h. apart (attempts_key-injective other email h)) t now
        s (attempts_key-ne-locked_key other email),
  )

  -- A failed login either leaves the lock as it is or renews it from its own moment.
  locked-record :
      (email : String) (t : Moments) (now : ℕ) (s : State)
      → is_locked cache cfg email now s ≡ false
      → is_live (timeout cfg) t.locking now ≡ false
      → is_locked cache cfg email now (record_failed_attempt cache cfg email t s) ≡ false
  unfolding is_locked record_failed_attempt lock_if_reached
  locked-record email t now s unlocked over =
      let counted =
        after_add cache cfg (attempts_key email) t
          (add (attempts_key email) 1 (timeout cfg) t.adding s) in
      ground (
        arith,
        get-after_add (locked_key email) email (locked_ne_attempts email email) t now s,
        get-set (locked_key email) (locked_key email) 1 (timeout cfg) t.locking now counted.1,
        eq_refl (locked_key email),
      )

  -- An account that has no lock at a moment has none at that moment after a run of failed logins
  -- either, if the duration of the lock has passed by then since each of them.
  pub lock_expires :
      (email : String) (ts : List Moments) (now : ℕ) (s : State)
      → is_locked cache cfg email now s ≡ false
      → All (λ t. is_live (timeout cfg) t.locking now ≡ false) ts
      → is_locked cache cfg email now (record_all cache cfg email ts s) ≡ false
  unfolding record_all
  lock_expires email [] now s unlocked h = unlocked
  lock_expires email (t ∷ ts) now s unlocked (h, hs) =
      lock_expires email ts now (record_failed_attempt cache cfg email t s)
        (locked-record email t now s unlocked h) hs

  -- Clearing removes the lock and the count of the account, whatever they were, and leaves every
  -- other account as it is.
  pub clear_lockout_resets :
      (email : String) (now : ℕ) (s : State)
      → (is_locked cache cfg email now (clear_lockout cache cfg email s) ≡ false)
        × (get (attempts_key email) now (clear_lockout cache cfg email s) ≡ none)
        × ((other : String)
            → other ≢ email
            → is_locked cache cfg other now (clear_lockout cache cfg email s)
              ≡ is_locked cache cfg other now s)
  unfolding is_locked clear_lockout
  clear_lockout_resets email now s =
      let s' = cache.delete (attempts_key email) s in
      (
        ground (
          arith,
          get-delete (locked_key email) (locked_key email) now s',
          eq_refl (locked_key email),
        ),
        ground (
          arith,
          get-delete (locked_key email) (attempts_key email) now s',
          get-delete (attempts_key email) (attempts_key email) now s,
          eq_refl (attempts_key email),
        ),
        λ other apart. ground (
          arith,
          get-delete (locked_key email) (locked_key other) now s',
          get-delete (attempts_key email) (locked_key other) now s,
          eq_iff (locked_key email) (locked_key other),
          eq_iff (attempts_key email) (locked_key other),
          λ (h : locked_key email ≡ locked_key other).
              apart (sym (locked_key-injective email other h)),
          λ (h : attempts_key email ≡ locked_key other). attempts_key-ne-locked_key email other h,
        ),
      )
