-- ===== src/SysEventbus/Bus.antt =====
-- apps/sys_eventbus/models.py, registry.py and publisher.py: the tables of the bus, the registry of
-- handlers and the publishing of an event.
use drf_enterprise_informati.Prelude.{
  ℕ, String, Bool, Option, none, some, List, [], ◌∷◌, ◌++◌, ◌==◌, if◌then◌else◌, find_first, any_of,
}
use drf_enterprise_informati.SysEventbus.Envelope.{Json, EventEnvelope, Fields, to_redis_fields}

pub record ProcessedEvent : Type 0 where
  pub message_id : String
  pub event_type : String

pub record DeadLetterEvent : Type 0 where
  pub message_id : String
  pub event_type : String
  pub payload : Fields
  pub tenant_id : Option String
  pub error : String
  pub retries : ℕ

-- An entry of the stream.
pub record Message : Type 0 where
  pub message_id : String
  pub fields : Fields

-- The arguments of `dispatch_handler.delay`.
pub record Task : Type 0 where
  pub handler_qualname : String
  pub message_id : String
  pub fields : Fields

-- The tables, the entries of the stream and those acknowledged, the tasks that Celery was given, all
-- oldest first, and `World`, what the handlers read and write.
pub record State (World : Type 0) : Type 0 where
  pub processed : List ProcessedEvent
  pub dead : List DeadLetterEvent
  pub stream : List Message
  pub acked : List String
  pub queue : List Task
  pub world : World

-- `ProcessedEvent.objects.filter(message_id=message_id).exists()`
abbrev pub is_processed : String → List ProcessedEvent → Bool
is_processed message_id rows = any_of (λ r. r.message_id == message_id) rows

module _ (json : Json) (World : Type 0) where
  -- A handler returns or raises, with the text of the exception. Other workers may take steps while
  -- it runs, so that it may leave any state.
  pub record Handler : Type 0 where
    pub qualname : String
    pub run : EventEnvelope json → State World → Option String × State World

  abbrev pub Registry : Type 0
  Registry = List (String × List Handler)

  -- `event_handler(event_type)(fn)`
  unfoldable pub event_handler : String → Handler → Registry → Registry
  event_handler event_type fn [] = (event_type, fn ∷ []) ∷ []
  event_handler event_type fn ((type, fns) ∷ rest) =
      let later = event_handler event_type fn rest in
      if type == event_type then (type, fns ++ (fn ∷ [])) ∷ rest else (type, fns) ∷ later

  unfoldable pub get_handlers : String → Registry → List Handler
  get_handlers event_type [] = []
  get_handlers event_type ((type, fns) ∷ rest) =
      let later = get_handlers event_type rest in if type == event_type then fns else later

  abbrev or_later : Option Handler → Option Handler → Option Handler
  or_later none later = later
  or_later (some fn) later = some fn

  unfoldable pub resolve_handler : String → Registry → Option Handler
  resolve_handler qualname [] = none
  resolve_handler qualname ((type, fns) ∷ rest) =
      or_later (find_first (λ fn. fn.qualname == qualname) fns) (resolve_handler qualname rest)

  -- `publish`: the id and the moment of the envelope and the id of the entry are drawn by the call.
  unfoldable pub publish :
      String
      → json.Value
      → Option String
      → Option String
      → String
      → String
      → String
      → State World
      → State World
  unfolding to_redis_fields
  publish event_type payload tenant_id actor_id id published_at message_id s = record s {
    stream =
        s.stream
        ++ (record {
          message_id = message_id;
          fields = to_redis_fields json (record {
            type = event_type;
            payload = payload;
            tenant_id = tenant_id;
            actor_id = actor_id;
            id = id;
            published_at = published_at;
          });
        }
            ∷ []);
  }
