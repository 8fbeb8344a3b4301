-- ===== src/Core/Idempotency/Tests.antt =====
-- The middleware on a concrete Redis, around an application that counts its requests.
use drf_enterprise_informati.Prelude.{
  ℕ, ◌+◌, suc, String, ◌≡◌, refl, Option, none, some, List, [], ◌∷◌, map, arith, ◌==◌, eq_iff, ltb,
  if◌then◌else◌,
}
use drf_enterprise_informati.Core.Idempotency.{
  Response, Entry, Redis, Config, Request, Moments, guard, route, redis_key, call_all,
}
use drf_enterprise_informati.Core.Idempotency.Replay.{replayed, handled_once}
use drf_enterprise_informati.Core.Idempotency.Keys.{Outcome, every_outcome}

abbrev Table : Type 0
Table = List (String × (Entry × ℕ))

abbrev read : Option (Entry × ℕ) → ℕ → Option Entry
read none now = none
read (some (e, end)) now = if ltb now end then some e else none

abbrev find : String → Table → Option (Entry × ℕ)
find k [] = none
find k ((j, v) ∷ t) = if j == k then some v else find k t

get-set :
    (k j : String) (e : Entry) (ttl now later : ℕ) (t : Table)
    → read (find j ((k, (e, now + ttl)) ∷ t)) later
      ≡ (if k == j then (if ltb later (now + ttl) then some e else none) else read (find j t) later)
get-set k j e ttl now later t = ground (arith, eq_iff k j)

abbrev redis : Redis
redis = record {
  State = Table;
  get = λ k now t. read (find k t) now;
  set = λ k e ttl now t. (k, (e, now + ttl)) ∷ t;
  get-set = get-set;
}

abbrev created : Response
created = record { status_code = 201; content = "{}"; content_type = none }

abbrev count_request : Request → ℕ → Response × ℕ
count_request request n = (created, suc n)

abbrev day : Config
day = record { guarded_methods = none; require_header = none; ttl = none }

abbrev post : Request
post = record { method = "POST"; user = some "u1"; key = some "k1"; body = "{}" }

abbrev at : ℕ → Moments
at now = record { reading = now; registering = now; storing = now }

abbrev no_entries : Table
no_entries = []

abbrev repeats : List (Request × Moments)
repeats = (post, at 7) ∷ (post, at 9) ∷ []

guarded : route day post ≡ guard (redis_key "u1" "k1")
unfolding route
guarded = refl

handled_once_example :
    ((call_all redis count_request day ((post, at 0) ∷ repeats) no_entries 0).0
      ≡ created ∷ map (λ _. replayed created) repeats)
    × ((call_all redis count_request day ((post, at 0) ∷ repeats) no_entries 0).2 ≡ 1)
handled_once_example =
    handled_once redis count_request day (redis_key "u1" "k1") post (at 0) repeats no_entries 0
      guarded refl ((guarded, refl), ((guarded, refl), tt))

every_outcome_example : Outcome redis count_request day post (at 0) no_entries 0
every_outcome_example = every_outcome redis count_request day post (at 0) no_entries 0
