-- ===== src/Core/Cache/Table.antt =====
-- A table of values with deadlines: it shows that the behaviour assumed of the cache can be met,
-- and serves the tests as a cache that runs.
use drf_enterprise_informati.Prelude.{
  ℕ, ◌+◌, ◌-◌, String, ◌≡◌, refl, Bool, true, false, Option, none, some, List, [], ◌∷◌, arith, ◌==◌,
  eq_iff, ltb, if◌then◌else◌, is_some,
}
use drf_enterprise_informati.Core.Cache.{Cache, is_live}

abbrev pub Entry : Type 0
Entry = ℕ × Option ℕ

abbrev pub Table : Type 0
Table = List (String × Entry)

abbrev deadline : Option ℕ → ℕ → Option ℕ
deadline none now = none
deadline (some t) now = some (now + t)

abbrev read : Entry → ℕ → Option ℕ
read (v, none) now = some v
read (v, some d) now = if ltb now d then some v else none

abbrev read? : Option Entry → ℕ → Option ℕ
read? none now = none
read? (some e) now = read e now

abbrev find : String → Table → Option Entry
find k [] = none
find k ((j, e) ∷ t) = if j == k then some e else find k t

abbrev without : String → Table → Table
without k [] = []
without k ((j, e) ∷ t) = let rest = without k t in if j == k then rest else (j, e) ∷ rest

find-without :
    (k j : String) (t : Table) → find j (without k t) ≡ (if k == j then none else find j t)
find-without k j [] = ground arith
find-without k j ((i, e) ∷ t) =
    ground (arith, find-without k j t, eq_iff i k, eq_iff i j, eq_iff k j)

abbrev get : String → ℕ → Table → Option ℕ
get k now t = read? (find k t) now

abbrev put : String → Entry → Table → Table
put k e t = (k, e) ∷ without k t

abbrev set : String → ℕ → Option ℕ → ℕ → Table → Table
set k v timeout now t = put k (v, deadline timeout now) t

abbrev add : String → ℕ → Option ℕ → ℕ → Table → Bool × Table
add k v timeout now t = if is_some (get k now t) then (false, t) else (true, set k v timeout now t)

abbrev expiry : Option Entry → Option ℕ
expiry none = none
expiry (some e) = e.1

abbrev bump : String → Option ℕ → Table → Option ℕ × Table
bump k none t = (none, t)
bump k (some n) t = (some (n + 1), put k (n + 1, expiry (find k t)) t)

abbrev incr : String → ℕ → Table → Option ℕ × Table
incr k now t = bump k (get k now t) t

abbrev left : Option ℕ → ℕ → Option ℕ
left none now = none
left (some d) now = some (d - now)

pub get-set :
    (k j : String) (v : ℕ) (timeout : Option ℕ) (now later : ℕ) (t : Table)
    → get j later (set k v timeout now t)
      ≡ (if k == j then (if is_live timeout now later then some v else none) else get j later t)
get-set k j v timeout now later t = ground (arith, find-without k j t)

pub incr-none : (k : String) (now : ℕ) (t : Table) → get k now t ≡ none → incr k now t ≡ (none, t)
incr-none k now t h = ground arith

pub incr-some :
    (k : String) (now n : ℕ) (t : Table) → get k now t ≡ some n → (incr k now t).0 ≡ some (n + 1)
incr-some k now n t h = ground arith

pub get-incr :
    (k j : String) (now later n : ℕ) (t : Table)
    → get k now t ≡ some n
    → get j later (incr k now t).1
      ≡ (if k == j then (if is_some (get k later t) then some (n + 1) else none) else get j later t)
get-incr k j now later n t h = ground (arith, find-without k j t, eq_iff k j)

pub get-delete :
    (k j : String) (now : ℕ) (t : Table)
    → get j now (without k t) ≡ (if k == j then none else get j now t)
get-delete k j now t = ground (arith, find-without k j t)

abbrev pub table : Cache
table = record {
  State = Table;
  get = get;
  set = set;
  add = add;
  incr = incr;
  delete = without;
  ttl = some (λ k now t. left (expiry (find k t)) now);
  get-set = get-set;
  add_lem = λ k v timeout now t. refl;
  incr-none = incr-none;
  incr-some = incr-some;
  get-incr = get-incr;
  get-delete = get-delete;
}
