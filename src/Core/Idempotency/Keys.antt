-- ===== src/Core/Idempotency/Keys.antt =====
-- Which requests share a stored answer, and which requests do not reach the application.
use Prim.Native.String.{◌++◌, count}
use text.Mathlib.TextLemmas.{append_cancel_left, append_inj}
use drf_enterprise_informati.Prelude.{
  ℕ, String, ◌≡◌, ◌≢◌, refl, Bool, true, false, Bool-cases, Option, none, some, [], ◌∷◌, arith,
  or_default, contains, is_set_iff, if◌then◌else◌, ◌⊎◌, inl, inr,
}
use drf_enterprise_informati.Core.Idempotency.{
  Response, Entry, in_flight, complete, Redis, Config, Request, Moments, guard, pass, refuse, route,
  with_key, with_user, redis_key, conflict, missing_header, routed, call,
}

redis_key-injective :
    (u v k l : String) → count u ≡ count v → redis_key u k ≡ redis_key v l → (u ≡ v) × (k ≡ l)
unfolding redis_key
redis_key-injective u v k l same h =
    let (users, keys) =
      append_inj (append_cancel_left "idempotency:" (u ++ ":" ++ k) (v ++ ":" ++ l) h) same in
    (users, append_cancel_left ":" k l keys)

-- A request with a non-empty header of an authenticated user.
abbrev Names : Request → String → String → Type 0
Names request user key = (request.user ≡ some user) × (request.key ≡ some key)

with_key-guard :
    (require : Bool) (user : String) (key : Option String) (k : String)
    → with_key require user key ≡ guard k
    → (name : String) × (key ≡ some name) × (redis_key user name ≡ k)
unfolding with_key
with_key-guard require user none k h = absurd (ground arith)
with_key-guard require user (some name) k h = (name, refl, ground arith)

route-guard :
    (cfg : Config) (request : Request) (k : String)
    → route cfg request ≡ guard k
    → (user name : String) × Names request user name × (redis_key user name ≡ k)
unfolding route
route-guard cfg request k h = go request.user refl
  where
    go :
        (u : Option String)
        → request.user ≡ u
        → (user name : String) × Names request user name × (redis_key user name ≡ k)
    go none e = absurd (ground (arith, with_user))
    go (some user) e =
        let (name, named, same) =
          with_key-guard (or_default cfg.require_header false) user request.key k (ground arith) in
        (user, name, (e, named), same)

agree :
    (o p x y : Option String) (u v n m : String)
    → o ≡ some u
    → p ≡ some v
    → x ≡ some n
    → y ≡ some m
    → count (or_default o "") ≡ count (or_default p "")
    → redis_key u n ≡ redis_key v m
    → (o ≡ p) × (x ≡ y)
agree o p x y u v n m ho hp hx hy same h =
    let len : count u ≡ count v = rw (ho, hp) at same in
    let (users, keys) = redis_key-injective u v n m len h in (cc, cc)

-- Two guarded requests share a stored answer only if they have the same user and the same header,
-- where the primary keys of the users are texts of one length, as those of UUIDs are.
pub shared_key_same_user :
    (cfg : Config) (a b : Request) (k : String)
    → route cfg a ≡ guard k
    → route cfg b ≡ guard k
    → count (or_default a.user "") ≡ count (or_default b.user "")
    → (a.user ≡ b.user) × (a.key ≡ b.key)
shared_key_same_user cfg a b k ha hb same =
    let (u, n, names, e) = route-guard cfg a k ha in
    let (v, m, names', e') = route-guard cfg b k hb in
    agree a.user b.user a.key b.key u v n m names.0 names'.0 names.1 names'.1 same (cc)

module _ (redis : Redis) {World : Type 0} (get_response : Request → World → Response × World)
    (cfg : Config) where
  open redis use {State, get}

  -- The header is not sent, or is empty.
  abbrev LacksKey : Request → Type 0
  LacksKey request = (request.key ≡ none) ⊎ (request.key ≡ some "")

  abbrev HasGuardedMethod : Request → Type 0
  HasGuardedMethod request =
      contains request.method
        (or_default cfg.guarded_methods ("POST" ∷ "PUT" ∷ "PATCH" ∷ "DELETE" ∷ []))
      ≡ true

  -- A request of an authenticated user with a guarded method and a header that is not empty.
  pub record IsGuarded (request : Request) (user key : String) : Type 0 where
    pub method : HasGuardedMethod request
    pub of_user : request.user ≡ some user
    pub named : request.key ≡ some key
    pub given : key ≢ ""

  -- A request that lacks the header although the settings require it.
  pub record MissesHeader (request : Request) : Type 0 where
    pub method : HasGuardedMethod request
    pub user : String
    pub of_user : request.user ≡ some user
    pub lacks : LacksKey request
    pub required : cfg.require_header ≡ some true

  -- A request that is let through: of another method, of no user, or without a header that is
  -- optional.
  pub data IsUnguarded (request : Request) : Type 0 where
    other_method : ¬ (HasGuardedMethod request) → IsUnguarded request
    anonymous : request.user ≡ none → IsUnguarded request
    optional : LacksKey request → cfg.require_header ≢ some true → IsUnguarded request

  -- What a request gets that the application never sees.
  pub data Refused (request : Request) (t : Moments) (s : State) : Response → Type 0 where
    no_header : MissesHeader request → Refused request t s missing_header
    running :
        (user key : String)
        → IsGuarded request user key
        → get ("idempotency:" ++ user ++ ":" ++ key) t.reading s ≡ some in_flight
        → Refused request t s conflict
    known :
        (user key : String) (code : ℕ) (body content_type : String)
        → IsGuarded request user key
        → get ("idempotency:" ++ user ++ ":" ++ key) t.reading s
          ≡ some (complete code body content_type)
        → Refused request t s
            (record { status_code = code; content = body; content_type = some content_type })

  -- The request reaches the application: it is not guarded, or its key is fresh.
  pub data Reaches (request : Request) (t : Moments) (s : State) : Type 0 where
    unguarded : IsUnguarded request → Reaches request t s
    fresh :
        (user key : String)
        → IsGuarded request user key
        → get ("idempotency:" ++ user ++ ":" ++ key) t.reading s ≡ none
        → Reaches request t s

  abbrev pub Outcome : Request → Moments → State → World → Type 0
  Outcome request t s w =
      (Reaches request t s
        × ((call redis get_response cfg request t s w).0 ≡ (get_response request w).0)
        × ((call redis get_response cfg request t s w).2 ≡ (get_response request w).1))
      ⊎ (Refused request t s (call redis get_response cfg request t s w).0
          × ((call redis get_response cfg request t s w).1 ≡ s)
          × ((call redis get_response cfg request t s w).2 ≡ w))

  answered :
      (request : Request) (t : Moments) (s : State) (w : World) (user name : String)
      → IsGuarded request user name
      → route cfg request ≡ guard ("idempotency:" ++ user ++ ":" ++ name)
      → (found : Option Entry) → get ("idempotency:" ++ user ++ ":" ++ name) t.reading s ≡ found
      → Outcome request t s w
  unfolding call routed
  answered request t s w user name i g none e =
      inl (fresh user name i e, ground arith, ground arith)
  answered request t s w user name i g (some in_flight) e =
      inr (rw (g, e) (running user name i e), ground arith, ground arith)
  answered request t s w user name i g (some (complete code body kind)) e =
      inr (rw (g, e) (known user name code body kind i e), ground arith, ground arith)

  passes :
      (request : Request) (t : Moments) (s : State) (w : World)
      → IsUnguarded request
      → route cfg request ≡ pass
      → Outcome request t s w
  unfolding call routed
  passes request t s w u e = inl (unguarded u, ground arith, ground arith)

  refuses :
      (request : Request) (t : Moments) (s : State) (w : World)
      → MissesHeader request
      → route cfg request ≡ refuse
      → Outcome request t s w
  unfolding call routed
  refuses request t s w m e = inr (rw e (no_header m), ground arith, ground arith)

  lacking :
      (request : Request) (t : Moments) (s : State) (w : World) (user : String)
      → HasGuardedMethod request
      → request.user ≡ some user
      → LacksKey request
      → (required : Option Bool) → cfg.require_header ≡ required
      → route cfg request ≡ (if or_default required false then refuse else pass)
      → Outcome request t s w
  lacking request t s w user m u l (some true) e r =
      refuses request t s w
        (record { method = m; user = user; of_user = u; lacks = l; required = e }) r
  lacking request t s w user m u l (some false) e r = passes request t s w (optional l (λ h. cc)) r
  lacking request t s w user m u l none e r = passes request t s w (optional l (λ h. cc)) r

  keyed :
      (request : Request) (t : Moments) (s : State) (w : World) (user : String)
      → HasGuardedMethod request
      → request.user ≡ some user
      → (key : Option String) → request.key ≡ key
      → Outcome request t s w
  unfolding route with_user with_key redis_key
  keyed request t s w user m u none e =
      lacking request t s w user m u (inl e) cfg.require_header refl (rw (m, u, e) refl)
  keyed request t s w user m u (some String.[]) e =
      lacking request t s w user m u (inr e) cfg.require_header refl (rw (m, u, e) refl)
  keyed request t s w user m u (some (String.◌∷◌ c name)) e =
      let given : String.◌∷◌ c name ≢ "" = (is_set_iff (String.◌∷◌ c name)).0 refl in
      answered request t s w user (String.◌∷◌ c name)
        (record { method = m; of_user = u; named = e; given = given }) (rw (m, u, e) refl) _ refl

  authenticated :
      (request : Request) (t : Moments) (s : State) (w : World)
      → HasGuardedMethod request
      → (user : Option String) → request.user ≡ user
      → Outcome request t s w
  unfolding route with_user
  authenticated request t s w m none e = passes request t s w (anonymous e) (rw (m, e) refl)
  authenticated request t s w m (some user) e = keyed request t s w user m e request.key refl

  -- Either a request reaches the application and gets its response, or it is refused: without the
  -- header where that is required, while its key is running, or with the stored answer; a refused
  -- request changes neither Redis nor the application. It reaches the application exactly if its
  -- method is not guarded, it has no user, it lacks a header that is optional, or nothing is stored
  -- for its user and header.
  pub every_outcome :
      (request : Request) (t : Moments) (s : State) (w : World) → Outcome request t s w
  unfolding route
  every_outcome request t s w =
      elim (Bool-cases (
        contains request.method
          (or_default cfg.guarded_methods ("POST" ∷ "PUT" ∷ "PATCH" ∷ "DELETE" ∷ [])))) [
            | inl m ↦ authenticated request t s w m request.user refl
            | inr n ↦ passes request t s w (other_method (λ m. absurd (cc))) (rw n refl)
          ]
