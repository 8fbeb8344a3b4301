-- ===== src/Core/RateLimit/Window.antt =====
-- How many requests of one key a window lets through.
use Prim.Native.Nat.{max, min}
use drf_enterprise_informati.Prelude.{
  ℕ, suc, ◌+◌, ◌-◌, String, ◌≡◌, ◌≢◌, true, false, none, some, List, [], ◌∷◌, arith, eq_iff,
  eq_refl, ltb, if◌then◌else◌, Option-cases, inl, inr, length, All,
}
use drf_enterprise_informati.Core.Cache.{Cache}
use drf_enterprise_informati.Core.PyText.{ℤ, pos, negsuc, to_nat}
use drf_enterprise_informati.Core.RateLimit.{
  Moments, exceeds, is_rate_limited, after_add, after_incr,
}

module _ (cache : Cache) (key : String) (count : ℤ) (window : ℕ) where
  open cache use {State, get, set, add, incr, get-set, add_lem, incr-some, incr-none, get-incr}

  -- The counter holds `n` until the window that opened at `start` ends.
  abbrev pub Counted : ℕ → ℕ → State → Type 0
  Counted start n s =
      (later : ℕ) → get key later s ≡ (if ltb later (start + window) then some n else none)

  -- A request reaches the cache before the window ends.
  abbrev pub InWindow : ℕ → Moments → Type 0
  InWindow start t =
      (ltb t.adding (start + window) ≡ true) × (ltb t.incrementing (start + window) ≡ true)

  first_request :
      (t : Moments) (s : State)
      → get key t.adding s ≡ none
      → ((is_rate_limited cache key count window t s).0 ≡ false)
        × Counted t.adding 1 (is_rate_limited cache key count window t s).1
  unfolding is_rate_limited
  first_request t s fresh = (
    ground (arith, add_lem key 1 (some window) t.adding s),
    λ later. ground (
      arith,
      add_lem key 1 (some window) t.adding s,
      get-set key key 1 (some window) t.adding later s,
      eq_refl key,
    ),
  )

  next_request :
      (start n : ℕ) (t : Moments) (s : State)
      → Counted start n s
      → InWindow start t
      → ((is_rate_limited cache key count window t s).0 ≡ exceeds (n + 1) count)
        × Counted start (n + 1) (is_rate_limited cache key count window t s).1
  unfolding is_rate_limited
  next_request start n t s c (w, w') = (
    ground (
      arith,
      add_lem key 1 (some window) t.adding s,
      c t.adding,
      c t.incrementing,
      incr-some key t.incrementing n s,
    ),
    λ later. ground (
      arith,
      add_lem key 1 (some window) t.adding s,
      c t.adding,
      c t.incrementing,
      c later,
      incr-some key t.incrementing n s,
      get-incr key key t.incrementing later n s,
      eq_refl key,
    ),
  )

  -- A run of requests: how many are let through, and the cache after them.
  pub admit_all : List Moments → State → ℕ × State
  admit_all [] s = (0, s)
  admit_all (t ∷ ts) s =
      let (denied, s') = is_rate_limited cache key count window t s in
      let (admitted, s'') = admit_all ts s' in (if denied then admitted else suc admitted, s'')

  admit_all-Counted :
      (start n : ℕ) (ts : List Moments) (s : State)
      → Counted start n s
      → All (InWindow start) ts
      → (admit_all ts s).0 ≡ min (to_nat count - n) (length ts)
  unfolding admit_all
  admit_all-Counted start n [] s c ws = omega arith
  admit_all-Counted start n (t ∷ ts) s c (w, ws) =
      let (denied, c') = next_request start n t s c w in
      let ih =
        admit_all-Counted start (n + 1) ts (is_rate_limited cache key count window t s).1 c' ws in
      rw denied (count_step count ih)
    where
      count_step :
          (z : ℤ)
          → (admit_all ts (is_rate_limited cache key count window t s).1).0
            ≡ min (to_nat z - (n + 1)) (length ts)
          → (if exceeds (n + 1) z
              then (admit_all ts (is_rate_limited cache key count window t s).1).0
              else suc (admit_all ts (is_rate_limited cache key count window t s).1).0)
            ≡ min (to_nat z - n) (suc (length ts))
      count_step (pos k) e = ground arith
      count_step (negsuc k) e = ground arith

  -- Of the requests that reach the cache in one window, the first being the one that opens it,
  -- exactly the limit is let through, or all if they are fewer. A limit of 0 or below lets one
  -- request through.
  pub window_admits :
      (t : Moments) (ts : List Moments) (s : State)
      → get key t.adding s ≡ none
      → All (InWindow t.adding) ts
      → (admit_all (t ∷ ts) s).0 ≡ min (max 1 (to_nat count)) (suc (length ts))
  unfolding admit_all
  window_admits t ts s fresh ws =
      let (open_now, c) = first_request t s fresh in
      rw open_now (
        ground (
          arith,
          admit_all-Counted t.adding 1 ts (is_rate_limited cache key count window t s).1 c ws,
        ))

module _ (cache : Cache) (key : String) (count : ℤ) (window : ℕ) where
  open cache use {State, get, set, add, incr, get-set, add_lem, incr-some, incr-none, get-incr}

  get-after_incr :
      (other : String) (t : Moments) (now : ℕ) (s : State)
      → other ≢ key
      → get other now (after_incr cache key count window t (incr key t.incrementing s)).1
        ≡ get other now s
  unfolding after_incr
  get-after_incr other t now s apart = elim (Option-cases (get key t.incrementing s)) [
    | inl e ↦ ground (
      arith,
      incr-none key t.incrementing s e,
      get-set key other 1 (some window) t.resetting now s,
      eq_iff key other,
    )
    | inr (n, e) ↦ ground (
      arith,
      incr-some key t.incrementing n s e,
      get-incr key other t.incrementing now n s e,
      eq_iff key other,
    )
  ]

  -- A request counts for its own key alone.
  pub limited_elsewhere :
      (other : String) (t : Moments) (now : ℕ) (s : State)
      → other ≢ key
      → get other now (is_rate_limited cache key count window t s).1 ≡ get other now s
  unfolding is_rate_limited after_add
  limited_elsewhere other t now s apart = ground (
    arith,
    add_lem key 1 (some window) t.adding s,
    get-after_incr other t now s apart,
    get-set key other 1 (some window) t.adding now s,
    eq_iff key other,
  )
