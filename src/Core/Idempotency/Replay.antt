-- ===== src/Core/Idempotency/Replay.antt =====
-- Repeated requests run the application once and get the first answer.
use drf_enterprise_informati.Prelude.{
  ℕ, ◌+◌, String, ◌≡◌, refl, true, none, some, List, [], ◌∷◌, map, arith, eq_refl, ltb, All,
  or_default,
}
use drf_enterprise_informati.Core.Idempotency.{
  Response, in_flight, Redis, Config, Request, Moments, guard, route, ttl_of, entry_of, call,
  call_all,
}

-- The answer that is stored for a response: the response with its content type filled in.
abbrev pub replayed : Response → Response
replayed r = record r { content_type = some (or_default r.content_type "application/json") }

module _ (redis : Redis) {World : Type 0} (get_response : Request → World → Response × World)
    (cfg : Config) (key : String) where
  open redis use {State, get, set, get-set}

  -- A request with this key that reaches Redis while the stored answer is kept.
  abbrev pub IsRepeat : Moments → Request × Moments → Type 0
  IsRepeat t again =
      (route cfg again.0 ≡ guard key) × (ltb again.1.reading (t.storing + ttl_of cfg) ≡ true)

  -- The stored answer can be read until its time is over.
  abbrev Stored : Moments → Response → State → Type 0
  Stored t r s =
      (now : ℕ) → ltb now (t.storing + ttl_of cfg) ≡ true → get key now s ≡ some (entry_of r)

  first_call :
      (request : Request) (t : Moments) (s : State) (w : World)
      → route cfg request ≡ guard key
      → get key t.reading s ≡ none
      → ((call redis get_response cfg request t s w).0 ≡ (get_response request w).0)
        × ((call redis get_response cfg request t s w).2 ≡ (get_response request w).1)
        × Stored t (get_response request w).0 (call redis get_response cfg request t s w).1
  unfolding call
  first_call request t s w guarded fresh =
      let s' = set key in_flight (ttl_of cfg) t.registering s in
      (
        ground (arith, guarded, fresh),
        ground (arith, guarded, fresh),
        λ now kept. ground (
          arith,
          guarded,
          fresh,
          kept,
          eq_refl key,
          get-set key key (entry_of (get_response request w).0) (ttl_of cfg) t.storing now s',
        ),
      )

  repeat_call :
      (again : Request × Moments) (t : Moments) (r : Response) (s : State) (w : World)
      → IsRepeat t again
      → Stored t r s
      → call redis get_response cfg again.0 again.1 s w ≡ (replayed r, s, w)
  unfolding call
  repeat_call again t r s w (guarded, kept) stored = rw (guarded, stored again.1.reading kept)

  repeat-All :
      (t : Moments) (r : Response) (repeats : List (Request × Moments)) (s : State) (w : World)
      → All (IsRepeat t) repeats
      → Stored t r s
      → call_all redis get_response cfg repeats s w ≡ (map (λ _. replayed r) repeats, s, w)
  unfolding call_all
  repeat-All t r [] s w h stored = refl
  repeat-All t r (again ∷ rest) s w (h, hs) stored =
      rw (repeat_call again t r s w h stored) (rw (repeat-All t r rest s w hs stored))

  -- The first request with a fresh key gets the application's response. Every later request with
  -- the key, while the answer is kept, gets that response again, and the application is as the
  -- first request left it: however many follow, it has run once.
  pub handled_once :
      (request : Request) (t : Moments) (repeats : List (Request × Moments)) (s : State) (w : World)
      → route cfg request ≡ guard key
      → get key t.reading s ≡ none
      → All (IsRepeat t) repeats
      → ((call_all redis get_response cfg ((request, t) ∷ repeats) s w).0
          ≡ (get_response request w).0 ∷ map (λ _. replayed (get_response request w).0) repeats)
        × ((call_all redis get_response cfg ((request, t) ∷ repeats) s w).2
            ≡ (get_response request w).1)
  unfolding call_all
  handled_once request t repeats s w guarded fresh hs =
      let (answered, ran, stored) = first_call request t s w guarded fresh in
      let rest =
        repeat-All t (get_response request w).0 repeats
          (call redis get_response cfg request t s w).1
          (call redis get_response cfg request t s w).2 hs stored in
      (rw rest (rw answered), rw rest ran)
