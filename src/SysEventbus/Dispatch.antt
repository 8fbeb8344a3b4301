-- ===== src/SysEventbus/Dispatch.antt =====
-- apps/sys_eventbus/tasks.py: the task that runs one handler for one message, with its retries.
pub mod Retrying
pub mod Skipping
use drf_enterprise_informati.Prelude.{
  ℕ, zero, suc, ◌+◌, ◌^◌, String, Bool, true, false, not, Option, none, some, List, [], ◌∷◌, ◌++◌,
  ◌==◌, ltb, if◌then◌else◌, Result, ok, err, or_default, or_none, or_empty, is_set,
}
use drf_enterprise_informati.SysEventbus.Envelope.{
  Json, EventEnvelope, Fields, FieldError, from_redis_fields,
}
use drf_enterprise_informati.SysEventbus.Bus.{
  ProcessedEvent, DeadLetterEvent, Message, Task, State, is_processed, Handler, Registry,
  resolve_handler,
}

-- `settings.APP_SYS_EVENTBUS`, the text of the database's error for a message id that is there
-- already, and what a UUID column accepts.
pub record Outside : Type 0 where
  pub max_retries : Option ℕ
  pub integrity_error : String
  pub is_uuid : String → Bool

-- `_max_retries()`
abbrev pub max_retries : Outside → ℕ
max_retries out = or_default out.max_retries 3

-- How one execution of the task ends: it returns, it asks Celery for a retry after a number of
-- seconds, with the exception as the cause, or an exception leaves it.
pub data Ended : Type 0 where
  returned : Ended
  retry : String → ℕ → Ended
  malformed : FieldError → Ended
  invalid_tenant : Ended

abbrev uuid_or_none : (String → Bool) → Option String → Bool
uuid_or_none is_uuid none = true
uuid_or_none is_uuid (some id) = is_uuid id

module _ (json : Json) {World : Type 0} (out : Outside) where
  -- `ProcessedEvent.objects.create`: the message id is unique.
  unfoldable pub create_processed : String → String → State World → Option String × State World
  create_processed message_id event_type s =
      if is_processed message_id s.processed then (some out.integrity_error, s) else (
        none,
        record s {
          processed =
              s.processed ++ (record { message_id = message_id; event_type = event_type } ∷ []);
        },
      )

  -- The `except` branch.
  unfoldable pub failed : ℕ → Task → EventEnvelope json → String → State World → Ended × State World
  failed retries task envelope error s =
      if ltb (retries + 1) (max_retries out)
      then (retry error (2 ^ (retries + 1)), s)
      else if uuid_or_none out.is_uuid (or_none (or_empty envelope.tenant_id))
      then (
        returned,
        record s {
          dead =
              s.dead
              ++ (record {
                message_id = task.message_id;
                event_type = envelope.type;
                payload = task.fields;
                tenant_id = or_none (or_empty envelope.tenant_id);
                error = error;
                retries = retries + 1;
              }
                  ∷ []);
        },
      )
      else (invalid_tenant, s)

  unfoldable pub after_create :
      ℕ → Task → EventEnvelope json → Option String × State World → Ended × State World
  unfolding failed
  after_create retries task envelope (none, s) = (returned, s)
  after_create retries task envelope (some error, s) = failed retries task envelope error s

  unfoldable pub after_handler :
      ℕ → Task → EventEnvelope json → Option String × State World → Ended × State World
  unfolding after_create create_processed failed
  after_handler retries task envelope (none, s) =
      after_create retries task envelope (create_processed task.message_id envelope.type s)
  after_handler retries task envelope (some error, s) = failed retries task envelope error s

  unfoldable pub run_handler :
      ℕ
      → Task
      → Handler json World
      → Result FieldError (EventEnvelope json)
      → State World
      → Ended × State World
  unfolding after_handler
  run_handler retries task handler (err e) s = (malformed e, s)
  run_handler retries task handler (ok envelope) s =
      after_handler retries task envelope (handler.run envelope s)

  unfoldable pub run_resolved :
      ℕ → Task → Option (Handler json World) → State World → Ended × State World
  unfolding run_handler from_redis_fields
  run_resolved retries task none s = (returned, s)
  run_resolved retries task (some handler) s =
      run_handler retries task handler (from_redis_fields json task.fields) s

  -- One execution of `dispatch_handler`, after so many retries.
  pub dispatch_handler : Registry json World → ℕ → Task → State World → Ended × State World
  unfolding run_resolved resolve_handler
  dispatch_handler registry retries task s =
      if is_processed task.message_id s.processed
      then (returned, s)
      else run_resolved retries task (resolve_handler json World task.handler_qualname registry) s

  -- What Celery makes of the end of an execution: it runs the task again if a retry is asked for and
  -- its own limit leaves one, and else drops the task with the exception.
  unfoldable pub retried :
      (State World → Ended × State World) → Ended × State World → Ended × State World
  retried again (returned, s) = (returned, s)
  retried again (malformed e, s) = (malformed e, s)
  retried again (invalid_tenant, s) = (invalid_tenant, s)
  retried again (retry error countdown, s) = again s

  -- The whole life of a task: how many retries Celery still grants, and how many there were.
  unfoldable pub run_task : Registry json World → ℕ → ℕ → Task → State World → Ended × State World
  unfolding dispatch_handler retried
  run_task registry zero retries task s = dispatch_handler registry retries task s
  run_task registry (suc left) retries task s =
      retried (run_task registry left (suc retries) task) (dispatch_handler registry retries task s)
