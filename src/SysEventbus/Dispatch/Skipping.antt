-- ===== src/SysEventbus/Dispatch/Skipping.antt =====
-- A message is marked as processed by the first handler that returns.
use drf_enterprise_informati.Prelude.{
  ℕ, ◌+◌, String, ◌≡◌, refl, true, Option, none, some, List, [], ◌∷◌, ◌++◌, arith, eq_iff, ltb, ok,
  Bool-cases, inl, inr, or_none, or_empty,
}
use drf_enterprise_informati.SysEventbus.Envelope.{Json, EventEnvelope, from_redis_fields}
use drf_enterprise_informati.SysEventbus.Bus.{
  ProcessedEvent, Task, State, is_processed, Handler, Registry, resolve_handler,
}
use drf_enterprise_informati.SysEventbus.Dispatch.{
  Outside, max_retries, returned, create_processed, failed, after_handler, run_handler,
  run_resolved, dispatch_handler, uuid_or_none,
}

is_processed-append :
    (id : String) (rows : List ProcessedEvent) (r : ProcessedEvent)
    → r.message_id ≡ id
    → is_processed id (rows ++ (r ∷ [])) ≡ true
is_processed-append id [] r h = ground (arith, eq_iff r.message_id id)
is_processed-append id (x ∷ rows) r h = ground (arith, is_processed-append id rows r h)

module _ (json : Json) {World : Type 0} (out : Outside) where
  pub failed-processed :
      (retries : ℕ) (task : Task) (e : EventEnvelope json) (error : String) (s : State World)
      → (failed json out retries task e error s).1.processed ≡ s.processed
  unfolding failed
  failed-processed retries task e error s =
      elim (Bool-cases (ltb (retries + 1) (max_retries out))) [
        | inl a ↦ rw a refl
        | inr a ↦ elim (Bool-cases (uuid_or_none out.is_uuid (or_none (or_empty e.tenant_id)))) [
          | inl b ↦ rw (a, b) refl
          | inr b ↦ rw (a, b) refl
        ]
      ]

  marked :
      (retries : ℕ) (task : Task) (e : EventEnvelope json) (s : State World)
      → is_processed task.message_id (after_handler json out retries task e (none, s)).1.processed
        ≡ true
  unfolding after_handler create_processed
  marked retries task e s = elim (Bool-cases (is_processed task.message_id s.processed)) [
    | inl h ↦ rw (h) (rw (failed-processed retries task e out.integrity_error s) h)
    | inr h ↦ rw (h) (is_processed-append task.message_id s.processed _ refl)
  ]

  skips :
      (registry : Registry json World) (retries : ℕ) (task : Task) (s : State World)
      → is_processed task.message_id s.processed ≡ true
      → dispatch_handler json out registry retries task s ≡ (returned, s)
  unfolding dispatch_handler
  skips registry retries task s h = rw h refl

  marked_after :
      (retries : ℕ) (task : Task) (e : EventEnvelope json) (r : Option String × State World)
      → r.0 ≡ none
      → is_processed task.message_id (after_handler json out retries task e r).1.processed ≡ true
  marked_after retries task e (some x, s) h = absurd (ground arith)
  marked_after retries task e (none, s) h = marked retries task e s

  -- Once a handler has returned for a message, every task for the same message returns at once and
  -- changes nothing, whichever handler it names: of the handlers of an event only the first that
  -- returns is run to its end.
  pub other_handlers_skipped :
      (registry : Registry json World) (retries retries' : ℕ) (task other : Task)
      (handler : Handler json World) (e : EventEnvelope json) (s : State World)
      → resolve_handler json World task.handler_qualname registry ≡ some handler
      → from_redis_fields json task.fields ≡ ok e
      → (handler.run e s).0 ≡ none
      → other.message_id ≡ task.message_id
      → dispatch_handler json out registry retries' other
          (dispatch_handler json out registry retries task s).1
        ≡ (returned, (dispatch_handler json out registry retries task s).1)
  unfolding dispatch_handler
  other_handlers_skipped registry retries retries' task other handler e s resolved readable done
        same =
      skips registry retries' other (dispatch_handler json out registry retries task s).1 (
        rw same (elim (Bool-cases (is_processed task.message_id s.processed)) [
          | inl h ↦ rw h h
          | inr h ↦
              rw (h, resolved, run_resolved)
                (rw (readable, run_handler) (marked_after retries task e (handler.run e s) done))
        ]))
