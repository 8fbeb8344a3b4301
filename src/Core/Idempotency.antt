-- ===== src/Core/Idempotency.antt =====
-- core/middleware/idempotency.py: a write request with a known key is answered from Redis. The
-- stored JSON text is modelled by the entry that it encodes. The content of a response is UTF-8
-- text: other bytes and streaming responses, for which `response.content.decode` raises, are left out.
pub mod Replay
pub mod Keys
mod Tests
use Prim.Native.String.{◌++◌}
use drf_enterprise_informati.Prelude.{
  ℕ, ◌+◌, String, ◌≡◌, Bool, true, false, Option, none, some, List, [], ◌∷◌, ◌==◌, ltb,
  if◌then◌else◌, contains, is_set, or_empty, or_default,
}

-- `response.get("Content-Type", "application/json")` is taken when the response is stored.
pub record Response : Type 0 where
  pub status_code : ℕ
  pub content : String
  pub content_type : Option String

pub data Entry : Type 0 where
  in_flight : Entry
  complete : ℕ → String → String → Entry

-- The Redis client, which the source only calls: `get(key)` and `set(key, value, ex=ttl)` on an
-- abstract state, each at a moment in seconds.
pub record Redis : Type 1 where
  pub State : Type 0
  pub get : String → ℕ → State → Option Entry
  pub set : String → Entry → ℕ → ℕ → State → State
  pub get-set :
      (k j : String) (e : Entry) (ttl now later : ℕ) (s : State)
      → get j later (set k e ttl now s)
        ≡ (if k == j then (if ltb later (now + ttl) then some e else none) else get j later s)

-- `settings.APP_SAFETY_IDEMPOTENCY`; a missing key is `none`
pub record Config : Type 0 where
  pub guarded_methods : Option (List String)
  pub require_header : Option Bool
  pub ttl : Option ℕ

pub record Request : Type 0 where
  pub method : String
  -- the primary key of an authenticated user
  pub user : Option String
  -- the header X-Idempotency-Key
  pub key : Option String
  pub body : String

abbrev methods : Config → List String
methods cfg = or_default cfg.guarded_methods ("POST" ∷ "PUT" ∷ "PATCH" ∷ "DELETE" ∷ [])

abbrev pub ttl_of : Config → ℕ
ttl_of cfg = or_default cfg.ttl 86400

unfoldable pub redis_key : String → String → String
redis_key user_id idempotency_key = "idempotency:" ++ user_id ++ ":" ++ idempotency_key

abbrev pub missing_header : Response
missing_header = record {
  status_code = 400;
  content = "{\"detail\": \"X-Idempotency-Key header is required.\"}";
  content_type = some "application/json";
}

abbrev pub conflict : Response
conflict = record {
  status_code = 409;
  content = "{\"detail\": \"A request with this idempotency key is already being processed.\"}";
  content_type = some "application/json";
}

abbrev pub entry_of : Response → Entry
entry_of r = complete r.status_code r.content (or_default r.content_type "application/json")

-- When the calls of one request reach Redis.
pub record Moments : Type 0 where
  pub reading : ℕ
  pub registering : ℕ
  pub storing : ℕ

-- What `__call__` does with a request, before Redis is asked.
pub data Route : Type 0 where
  pass : Route
  refuse : Route
  guard : String → Route

with_key : Bool → String → Option String → Route
with_key require user none = if require then refuse else pass
with_key require user (some key) =
    if is_set key then guard (redis_key user key) else if require then refuse else pass

with_user : Bool → Option String → Option String → Route
unfolding with_key
with_user require none key = pass
with_user require (some user) key = with_key require user key

pub route : Config → Request → Route
unfolding with_user
route cfg request =
    if contains request.method (methods cfg)
    then with_user (or_default cfg.require_header false) request.user request.key
    else pass

-- `World` is what the rest of the application reads and writes; `get_response` is the rest of the
-- chain of middleware and the view, which Django makes answer every request.
module _ (redis : Redis) {World : Type 0} (get_response : Request → World → Response × World) where
  open redis use {State}

  answer :
      Config → String → Request → Moments → Option Entry → State → World → Response × State × World
  answer cfg key request t (some in_flight) s w = (conflict, s, w)
  answer cfg key request t (some (complete code body content_type)) s w =
      (record { status_code = code; content = body; content_type = some content_type }, s, w)
  answer cfg key request t none s w =
      let s' = redis.set key in_flight (ttl_of cfg) t.registering s in
      let (response, w') = get_response request w in
      (response, redis.set key (entry_of response) (ttl_of cfg) t.storing s', w')

  routed : Config → Request → Moments → Route → State → World → Response × State × World
  unfolding answer
  routed cfg request t pass s w = let (response, w') = get_response request w in (response, s, w')
  routed cfg request t refuse s w = (missing_header, s, w)
  routed cfg request t (guard key) s w = answer cfg key request t (redis.get key t.reading s) s w

  -- `IdempotencyMiddleware.__call__`
  pub call : Config → Request → Moments → State → World → Response × State × World
  unfolding routed
  call cfg request t s w = routed cfg request t (route cfg request) s w

  -- A sequence of requests, each answered before the next: the responses and the final state.
  pub call_all : Config → List (Request × Moments) → State → World → List Response × State × World
  call_all cfg [] s w = ([], s, w)
  call_all cfg ((request, t) ∷ rest) s w =
      let (response, s', w') = call cfg request t s w in
      let (responses, s'', w'') = call_all cfg rest s' w' in (response ∷ responses, s'', w'')
