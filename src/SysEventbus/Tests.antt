-- ===== src/SysEventbus/Tests.antt =====
-- The bus on concrete tables: two handlers of one type, and handlers that fail.
use drf_enterprise_informati.Prelude.{
  ◌^◌, ◌≤◌, ◌<◌, String, ◌≡◌, ◌≢◌, refl, Option, none, some, List, [], ◌∷◌, ◌++◌, arith, ◌==◌,
  eq_iff, ok,
}
use drf_enterprise_informati.SysEventbus.Envelope.{
  Json, EventEnvelope, Fields, to_redis_fields, from_redis_fields, envelope_roundtrip,
}
use drf_enterprise_informati.SysEventbus.Bus.{
  Message, Task, State, Handler, Registry, event_handler, resolve_handler,
}
use drf_enterprise_informati.SysEventbus.Polling.{
  poll_stream, tasks_of_batch, ids, IsReadable, poll_dispatches,
}
use drf_enterprise_informati.SysEventbus.Dispatch.{
  Outside, returned, retry, dispatch_handler, run_task,
}
use drf_enterprise_informati.SysEventbus.Dispatch.Skipping.{other_handlers_skipped}
use drf_enterprise_informati.SysEventbus.Dispatch.Retrying.{
  AlwaysFails, letter, tries, dead_letter_when_exhausted,
}

abbrev texts : Json
texts = record { Value = String; dumps = λ v. v; loads = λ t. some t }

abbrev envelope : EventEnvelope texts
envelope = record {
  type = "document.created";
  payload = "{}";
  tenant_id = some "t1";
  actor_id = none;
  id = "e1";
  published_at = "now";
}

tenant_set : ◌≢◌ {A = Option String} (some "t1") (some "")
tenant_set h = absurd (ground (arith, eq_iff "t1" ""))

actor_none : ◌≢◌ {A = Option String} none (some "")
actor_none h = absurd (ground arith)

envelope_roundtrip_example : from_redis_fields texts (to_redis_fields texts envelope) ≡ ok envelope
envelope_roundtrip_example = envelope_roundtrip texts envelope tenant_set actor_none refl

abbrev Counter : Type 0
Counter = List String

-- A handler that adds its name to a list.
abbrev noting : String → Handler texts Counter
noting name = record { qualname = name; run = λ e s. (none, record s { world = name ∷ s.world }) }

abbrev failing : Handler texts Counter
failing = record { qualname = "fails"; run = λ e s. (some "boom", s) }

abbrev registry : Registry texts Counter
registry = ("document.created", noting "a" ∷ noting "b" ∷ []) ∷ ("other", failing ∷ []) ∷ []

registered :
    event_handler texts Counter "document.created"
      (noting "b")
      (event_handler texts Counter "document.created" (noting "a") [])
    ≡ ("document.created", noting "a" ∷ noting "b" ∷ []) ∷ []
unfolding event_handler
registered = refl

abbrev fields : Fields
fields = to_redis_fields texts envelope

abbrev start : State Counter
start = record { processed = []; dead = []; stream = []; acked = []; queue = []; world = [] }

abbrev batch : List Message
batch = record { message_id = "1-0"; fields = fields } ∷ []

readable : IsReadable texts registry (record { message_id = "1-0"; fields = fields })
readable = (envelope, envelope_roundtrip texts envelope tenant_set actor_none refl)

poll_dispatches_example : poll_stream texts registry batch start ≡ (
  ok tt,
  record start {
    queue = [] ++ tasks_of_batch texts registry start batch;
    acked = [] ++ ids texts registry batch;
  },
)
poll_dispatches_example = poll_dispatches texts registry batch start (readable, tt)

abbrev outside : Outside
outside = record { max_retries = none; integrity_error = "unique"; is_uuid = λ id. id == "t1" }

abbrev task : String → Task
task name = record { handler_qualname = name; message_id = "1-0"; fields = fields }

resolves_a : resolve_handler texts Counter "a" registry ≡ some (noting "a")
unfolding resolve_handler
resolves_a = refl

resolves_fails : resolve_handler texts Counter "fails" registry ≡ some failing
unfolding resolve_handler
resolves_fails = refl

other_handlers_skipped_example :
    dispatch_handler texts outside registry 0
      (task "b")
      (dispatch_handler texts outside registry 0 (task "a") start).1
    ≡ (returned, (dispatch_handler texts outside registry 0 (task "a") start).1)
other_handlers_skipped_example =
    other_handlers_skipped texts outside registry 0 0 (task "a") (task "b") (noting "a") envelope
      start resolves_a (envelope_roundtrip texts envelope tenant_set actor_none refl) refl refl

always_fails : AlwaysFails texts outside registry (task "fails") failing envelope "boom"
always_fails = record {
  resolved = resolves_fails;
  readable = envelope_roundtrip texts envelope tenant_set actor_none refl;
  tenant = refl;
  raises = λ s. refl;
  processed = λ s. refl;
  dead = λ s. refl;
}

dead_letter_when_exhausted_example :
    (tries outside ≤ 4
      → ((run_task texts outside registry 3 0 (task "fails") start).0 ≡ returned)
        × ((run_task texts outside registry 3 0 (task "fails") start).1.dead
            ≡ [] ++ (letter texts outside registry (task "fails") failing envelope "boom" ∷ [])))
    × (4 < tries outside
        → ((run_task texts outside registry 3 0 (task "fails") start).0 ≡ retry "boom" (2 ^ 4))
          × ((run_task texts outside registry 3 0 (task "fails") start).1.dead ≡ []))
dead_letter_when_exhausted_example =
    dead_letter_when_exhausted texts outside registry (task "fails") failing envelope "boom" 3 start
      always_fails refl
