-- ===== src/IamAuth/Lockout/Steps.antt =====
-- What one recorded attempt does to the counter and to the lock.
use drf_enterprise_informati.Prelude.{
  ℕ, ◌+◌, ◌≤◌, String, ◌≡◌, ◌≢◌, true, none, some, arith, ◌==◌, eq_iff, eq_refl, leb, if◌then◌else◌,
  ◌&&◌,
}
use drf_enterprise_informati.Core.Cache.{Cache, is_live}
use drf_enterprise_informati.IamAuth.Lockout.{
  Config, Moments, max_attempts, timeout, attempts_key, locked_key, is_locked,
  record_failed_attempt, after_incr, lock_if_reached,
}
use drf_enterprise_informati.IamAuth.Lockout.Keys.{attempts_key-ne-locked_key}

module _ (cache : Cache) (cfg : Config) (email : String) where
  open cache use {State, get, set, add, incr, get-set, add_lem, incr-some, incr-none, get-incr}

  -- The counter holds `n` while the window that opened at `start` lasts, and is gone after it.
  abbrev pub Counted : ℕ → ℕ → State → Type 0
  Counted start n s =
      (later : ℕ)
      → get (attempts_key email) later s
        ≡ (if is_live (timeout cfg) start later then some n else none)

  -- The calls of an attempt reach the cache while the window that opened at `start` lasts.
  pub record InWindow (start : ℕ) (t : Moments) : Type 0 where
    pub adding : is_live (timeout cfg) start t.adding ≡ true
    pub incrementing : is_live (timeout cfg) start t.incrementing ≡ true
    pub locking : start ≤ t.locking

  get-lock :
      (k : String) (t : Moments) (n later : ℕ) (s : State)
      → get k later (lock_if_reached cache cfg email t (n, s)) ≡ (
          if leb (max_attempts cfg) n && (locked_key email == k)
          then (if is_live (timeout cfg) t.locking later then some 1 else none)
          else get k later s)
  unfolding lock_if_reached
  get-lock k t n later s =
      ground (arith, get-set (locked_key email) k 1 (timeout cfg) t.locking later s)

  attempts-lock :
      (t : Moments) (n later : ℕ) (s : State)
      → get (attempts_key email) later (lock_if_reached cache cfg email t (n, s))
        ≡ get (attempts_key email) later s
  attempts-lock t n later s = ground (
    arith,
    get-lock (attempts_key email) t n later s,
    eq_iff (locked_key email) (attempts_key email),
    λ (h : attempts_key email ≡ locked_key email). attempts_key-ne-locked_key email email h,
  )

  locked-lock :
      (t : Moments) (n later : ℕ) (s : State)
      → is_locked cache cfg email later (lock_if_reached cache cfg email t (n, s)) ≡ (
          if leb (max_attempts cfg) n
          then is_live (timeout cfg) t.locking later
          else is_locked cache cfg email later s)
  unfolding is_locked
  locked-lock t n later s =
      ground (arith, get-lock (locked_key email) t n later s, eq_refl (locked_key email))

  pub record_first :
      (t : Moments) (s : State)
      → max_attempts cfg ≢ 0
      → get (attempts_key email) t.adding s ≡ none
      → record_failed_attempt cache cfg email t s
        ≡ lock_if_reached cache cfg email t (1, set (attempts_key email) 1 (timeout cfg) t.adding s)
  unfolding record_failed_attempt
  record_first t s h e = ground (arith, add_lem (attempts_key email) 1 (timeout cfg) t.adding s)

  pub record_next :
      (t : Moments) (n : ℕ) (s : State)
      → max_attempts cfg ≢ 0
      → get (attempts_key email) t.adding s ≡ some n
      → get (attempts_key email) t.incrementing s ≡ some n
      → record_failed_attempt cache cfg email t s
        ≡ lock_if_reached cache cfg email t (n + 1, (incr (attempts_key email) t.incrementing s).1)
  unfolding record_failed_attempt after_incr
  record_next t n s h e e' = ground (
    arith,
    add_lem (attempts_key email) 1 (timeout cfg) t.adding s,
    incr-some (attempts_key email) t.incrementing n s,
  )

  module _ (enabled : max_attempts cfg ≢ 0) where
    -- The first attempt opens the window and counts one.
    pub record_first-Counted :
        (t : Moments) (s : State)
        → get (attempts_key email) t.adding s ≡ none
        → Counted t.adding 1 (record_failed_attempt cache cfg email t s)
    record_first-Counted t s e later = ground (
      arith,
      record_first t s enabled e,
      attempts-lock t 1 later (set (attempts_key email) 1 (timeout cfg) t.adding s),
      get-set (attempts_key email) (attempts_key email) 1 (timeout cfg) t.adding later s,
      eq_refl (attempts_key email),
    )

    locked_of_set :
        (t : Moments) (now : ℕ) (s : State)
        → is_locked cache cfg email now (set (attempts_key email) 1 (timeout cfg) t.adding s)
          ≡ is_locked cache cfg email now s
    unfolding is_locked
    locked_of_set t now s = ground (
      arith,
      get-set (attempts_key email) (locked_key email) 1 (timeout cfg) t.adding now s,
      eq_iff (attempts_key email) (locked_key email),
      λ (h : attempts_key email ≡ locked_key email). attempts_key-ne-locked_key email email h,
    )

    pub record_first-locked :
        (t : Moments) (now : ℕ) (s : State)
        → get (attempts_key email) t.adding s ≡ none
        → is_locked cache cfg email now (record_failed_attempt cache cfg email t s) ≡ (
            if leb (max_attempts cfg) 1
            then is_live (timeout cfg) t.locking now
            else is_locked cache cfg email now s)
    record_first-locked t now s e = ground (
      arith,
      record_first t s enabled e,
      locked-lock t 1 now (set (attempts_key email) 1 (timeout cfg) t.adding s),
      locked_of_set t now s,
    )

    -- Each later attempt in the window counts one more.
    pub record_next-Counted :
        (start n : ℕ) (t : Moments) (s : State)
        → Counted start n s
        → InWindow start t
        → Counted start (n + 1) (record_failed_attempt cache cfg email t s)
    record_next-Counted start n t s c w later = ground (
      arith,
      w.adding,
      w.incrementing,
      c t.adding,
      c t.incrementing,
      c later,
      record_next t n s enabled,
      attempts-lock t (n + 1) later (incr (attempts_key email) t.incrementing s).1,
      get-incr (attempts_key email) (attempts_key email) t.incrementing later n s,
      eq_refl (attempts_key email),
    )

    locked_of_incr :
        (now moment n : ℕ) (s : State)
        → get (attempts_key email) moment s ≡ some n
        → is_locked cache cfg email now (incr (attempts_key email) moment s).1
          ≡ is_locked cache cfg email now s
    unfolding is_locked
    locked_of_incr now moment n s e = ground (
      arith,
      get-incr (attempts_key email) (locked_key email) moment now n s,
      eq_iff (attempts_key email) (locked_key email),
      λ (h : attempts_key email ≡ locked_key email). attempts_key-ne-locked_key email email h,
    )

    pub record_next-locked :
        (start n now : ℕ) (t : Moments) (s : State)
        → Counted start n s
        → InWindow start t
        → is_locked cache cfg email now (record_failed_attempt cache cfg email t s) ≡ (
            if leb (max_attempts cfg) (n + 1)
            then is_live (timeout cfg) t.locking now
            else is_locked cache cfg email now s)
    record_next-locked start n now t s c w = ground (
      arith,
      w.adding,
      w.incrementing,
      c t.adding,
      c t.incrementing,
      record_next t n s enabled,
      locked-lock t (n + 1) now (incr (attempts_key email) t.incrementing s).1,
      locked_of_incr now t.incrementing n s,
    )
