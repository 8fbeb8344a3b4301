-- ===== src/SysEventbus/Dispatch/Retrying.antt =====
-- A handler that keeps failing: how often it is tried and what is left of its message.
use drf_enterprise_informati.Prelude.{
  ℕ, zero, suc, ◌+◌, ◌≤◌, ◌<◌, ◌^◌, String, ◌≡◌, refl, ap, ◌∙◌, true, false, Option, none, some, [],
  ◌∷◌, ◌++◌, arith, ltb, if◌then◌else◌, ok, Bool-cases, inl, inr, or_none, or_empty,
}
use drf_enterprise_informati.SysEventbus.Envelope.{Json, EventEnvelope, from_redis_fields}
use drf_enterprise_informati.SysEventbus.Bus.{
  DeadLetterEvent, Task, State, is_processed, Handler, Registry, resolve_handler,
}
use drf_enterprise_informati.SysEventbus.Dispatch.{
  Outside, max_retries, Ended, returned, retry, malformed, invalid_tenant, failed, after_handler,
  run_handler, run_resolved, dispatch_handler, retried, run_task, uuid_or_none,
}

-- How often a failing handler is tried: at least once.
abbrev pub tries : Outside → ℕ
tries out = if ltb 0 (max_retries out) then max_retries out else 1

module _ (json : Json) {World : Type 0} (out : Outside) (registry : Registry json World)
    (task : Task) (handler : Handler json World) (e : EventEnvelope json) (error : String) where
  -- The handler raises in every state, and leaves the tables of the bus alone.
  pub record AlwaysFails : Type 0 where
    pub resolved : resolve_handler json World task.handler_qualname registry ≡ some handler
    pub readable : from_redis_fields json task.fields ≡ ok e
    pub tenant : uuid_or_none out.is_uuid (or_none (or_empty e.tenant_id)) ≡ true
    pub raises : (s : State World) → (handler.run e s).0 ≡ some error
    pub processed : (s : State World) → (handler.run e s).1.processed ≡ s.processed
    pub dead : (s : State World) → (handler.run e s).1.dead ≡ s.dead

  -- The row that the message leaves.
  abbrev pub letter : DeadLetterEvent
  letter = record {
    message_id = task.message_id;
    event_type = e.type;
    payload = task.fields;
    tenant_id = or_none (or_empty e.tenant_id);
    error = error;
    retries = tries out;
  }

  module _ (f : AlwaysFails) where
    tried :
        (retries : ℕ) (r : Option String × State World)
        → r.0 ≡ some error
        → after_handler json out retries task e r ≡ failed json out retries task e error r.1
    unfolding after_handler
    tried retries (none, s) h = absurd (ground arith)
    tried retries (some y, s) h = (let same : y ≡ error = ground arith in rw same refl)

    one_try :
        (retries : ℕ) (s : State World)
        → is_processed task.message_id s.processed ≡ false
        → dispatch_handler json out registry retries task s
          ≡ failed json out retries task e error (handler.run e s).1
    unfolding dispatch_handler
    one_try retries s h =
        rw (h, f.resolved, run_resolved)
          (rw (f.readable, run_handler) (tried retries (handler.run e s) (f.raises s)))

    -- The last try leaves the message in the table of dead letters.
    last_try :
        (retries : ℕ) (s : State World)
        → is_processed task.message_id s.processed ≡ false
        → ltb (retries + 1) (max_retries out) ≡ false
        → retries < tries out
        → ((dispatch_handler json out registry retries task s).0 ≡ returned)
          × ((dispatch_handler json out registry retries task s).1.dead ≡ s.dead ++ (letter ∷ []))
    unfolding failed
    last_try retries s h last below =
        let count : retries + 1 ≡ tries out = ground arith in
        rw (one_try retries s h) (rw (last, f.tenant) (refl, rw (count, f.dead s) refl))

    early_try :
        (retries : ℕ) (s : State World)
        → is_processed task.message_id s.processed ≡ false
        → ltb (retries + 1) (max_retries out) ≡ true
        → dispatch_handler json out registry retries task s
          ≡ (retry error (2 ^ (retries + 1)), (handler.run e s).1)
    unfolding failed
    early_try retries s h more = rw (one_try retries s h) (rw more refl)

    retried_returned :
        (again : State World → Ended × State World) (r : Ended × State World)
        → r.0 ≡ returned
        → retried json out again r ≡ r
    unfolding retried
    retried_returned again (returned, s) h = refl
    retried_returned again (retry x n, s) h = absurd (ground arith)
    retried_returned again (malformed x, s) h = refl
    retried_returned again (invalid_tenant, s) h = refl

    all_tries :
        (left retries : ℕ) (s : State World)
        → is_processed task.message_id s.processed ≡ false
        → retries < tries out
        → tries out ≤ retries + left + 1
        → ((run_task json out registry left retries task s).0 ≡ returned)
          × ((run_task json out registry left retries task s).1.dead ≡ s.dead ++ (letter ∷ []))
    unfolding run_task
    all_tries zero retries s h below enough = last_try retries s h (ground arith) below
    all_tries (suc left) retries s h below enough =
        elim (Bool-cases (ltb (retries + 1) (max_retries out))) [
          | inl more ↦
              (let ih =
                  all_tries left (suc retries) (handler.run e s).1 (rw (f.processed s) h)
                    (ground arith) (ground arith) in
                rw (early_try retries s h more)
                  (ih.0, ih.1 ∙ ap (λ d. d ++ (letter ∷ [])) (f.dead s)))
          | inr last ↦
              (let end = last_try retries s h last below in
                rw
                  (retried_returned (run_task json out registry left (suc retries) task)
                    (dispatch_handler json out registry retries task s) end.0)
                  end)
        ]

    too_few_tries :
        (left retries : ℕ) (s : State World)
        → is_processed task.message_id s.processed ≡ false
        → retries + left + 1 < max_retries out
        → ((run_task json out registry left retries task s).0
            ≡ retry error (2 ^ (retries + left + 1)))
          × ((run_task json out registry left retries task s).1.dead ≡ s.dead)
    unfolding run_task
    too_few_tries zero retries s h few =
        rw (early_try retries s h (ground arith)) (ground arith, f.dead s)
    too_few_tries (suc left) retries s h few =
        let ih =
          too_few_tries left (suc retries) (handler.run e s).1 (rw (f.processed s) h)
            (ground arith) in
        let total : suc retries + left + 1 ≡ retries + suc left + 1 = omega arith in
        rw (early_try retries s h (ground arith)) (rw total at ih.0, ih.1 ∙ f.dead s)

  -- A handler that always fails is tried `MAX_RETRIES` times, or once if that is 0, and then leaves
  -- exactly one dead letter with that number of tries, if Celery's own limit of retries allows as
  -- many. If the limit is lower, the task ends with the handler's exception and no dead letter is
  -- written. The message is not processed, and its tenant is none or a UUID.
  pub dead_letter_when_exhausted :
      (celery_limit : ℕ) (s : State World)
      → AlwaysFails
      → is_processed task.message_id s.processed ≡ false
      → (tries out ≤ celery_limit + 1
          → ((run_task json out registry celery_limit 0 task s).0 ≡ returned)
            × ((run_task json out registry celery_limit 0 task s).1.dead ≡ s.dead ++ (letter ∷ [])))
        × (celery_limit + 1 < tries out
            → ((run_task json out registry celery_limit 0 task s).0
                ≡ retry error (2 ^ (celery_limit + 1)))
              × ((run_task json out registry celery_limit 0 task s).1.dead ≡ s.dead))
  dead_letter_when_exhausted celery_limit s f h = (
    λ enough. all_tries f celery_limit 0 s h (ground arith) (ground arith),
    λ few.
        let none_yet : 0 + celery_limit ≡ celery_limit = omega arith in
        let end = too_few_tries f celery_limit 0 s h (ground arith) in
        (rw none_yet at end.0, end.1),
  )
