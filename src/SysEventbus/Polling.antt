-- ===== src/SysEventbus/Polling.antt =====
-- apps/sys_eventbus/consumer.py: a batch of the stream is handed to Celery. The batch is what
-- `xreadgroup` returns; Redis and Celery accept every acknowledgement and every task.
use drf_enterprise_informati.Prelude.{
  String, ◌≡◌, refl, ap, ◌∙◌, List, [], ◌∷◌, ◌++◌, map, if◌then◌else◌, Result, ok, err, Bool-cases,
  inl, inr, All, is_empty,
}
use mathlib.Core.List.{append-nil, append_assoc}
use drf_enterprise_informati.SysEventbus.Envelope.{
  Json, EventEnvelope, FieldError, from_redis_fields,
}
use drf_enterprise_informati.SysEventbus.Bus.{
  Message, Task, State, is_processed, Handler, Registry, get_handlers,
}

module _ (json : Json) {World : Type 0} (registry : Registry json World) where
  -- `client.xack`
  abbrev ack : String → State World → State World
  ack message_id s = record s { acked = s.acked ++ (message_id ∷ []) }

  abbrev task_of : Message → Handler json World → Task
  task_of m handler = record {
    handler_qualname = handler.qualname;
    message_id = m.message_id;
    fields = m.fields;
  }

  -- The loop over the handlers.
  delay_all : Message → List (Handler json World) → State World → State World
  delay_all m [] s = s
  delay_all m (handler ∷ rest) s =
      delay_all m rest (record s { queue = s.queue ++ (task_of m handler ∷ []) })

  dispatch : Message → List (Handler json World) → State World → State World
  unfolding delay_all
  dispatch m handlers s =
      if is_empty handlers then ack m.message_id s else ack m.message_id (delay_all m handlers s)

  dispatch_read :
      Message
      → Result FieldError (EventEnvelope json)
      → State World
      → Result FieldError (Unit {0}) × State World
  unfolding dispatch
  dispatch_read m (err e) s = (err e, s)
  dispatch_read m (ok envelope) s =
      (ok tt, dispatch m (get_handlers json World envelope.type registry) s)

  -- One message of the batch.
  poll_message : Message → State World → Result FieldError (Unit {0}) × State World
  unfolding dispatch_read
  poll_message m s =
      if is_processed m.message_id s.processed
      then (ok tt, ack m.message_id s)
      else dispatch_read m (from_redis_fields json m.fields) s

  -- The rest of the batch is read only if the message did not raise.
  then_poll :
      (State World → Result FieldError (Unit {0}) × State World)
      → Result FieldError (Unit {0}) × State World
      → Result FieldError (Unit {0}) × State World
  then_poll next (err e, s) = (err e, s)
  then_poll next (ok _, s) = next s

  pub poll_stream : List Message → State World → Result FieldError (Unit {0}) × State World
  unfolding poll_message then_poll
  poll_stream [] s = (ok tt, s)
  poll_stream (m ∷ rest) s = then_poll (poll_stream rest) (poll_message m s)

  -- The tasks that a message calls for, without the loop: none if it is processed already, else one
  -- for each handler of its type.
  abbrev tasks_read : Message → Result FieldError (EventEnvelope json) → List Task
  tasks_read m (err e) = []
  tasks_read m (ok envelope) = map (task_of m) (get_handlers json World envelope.type registry)

  abbrev pub tasks_for : State World → Message → List Task
  tasks_for s m =
      if is_processed m.message_id s.processed
      then []
      else tasks_read m (from_redis_fields json m.fields)

  abbrev pub tasks_of_batch : State World → List Message → List Task
  tasks_of_batch s [] = []
  tasks_of_batch s (m ∷ rest) = tasks_for s m ++ tasks_of_batch s rest

  abbrev pub ids : List Message → List String
  ids [] = []
  ids (m ∷ rest) = m.message_id ∷ ids rest

  -- The fields of a message can be read.
  abbrev pub IsReadable : Message → Type 0
  IsReadable m = (envelope : EventEnvelope json) × (from_redis_fields json m.fields ≡ ok envelope)

  delay_all_lem :
      (m : Message) (handlers : List (Handler json World)) (s : State World)
      → delay_all m handlers s ≡ record s { queue = s.queue ++ map (task_of m) handlers }
  unfolding delay_all
  delay_all_lem m [] s = rw (append-nil s.queue) refl
  delay_all_lem m (h ∷ rest) s =
      delay_all_lem m rest (record s { queue = s.queue ++ (task_of m h ∷ []) })
      ∙ ap (λ q. record s { queue = q })
          (append_assoc s.queue (task_of m h ∷ []) (map (task_of m) rest))

  poll_new :
      (m : Message) (handlers : List (Handler json World)) (s : State World)
      → dispatch m handlers s ≡ record s {
        queue = s.queue ++ map (task_of m) handlers;
        acked = s.acked ++ (m.message_id ∷ []);
      }
  unfolding dispatch
  poll_new m [] s = rw (append-nil s.queue) refl
  poll_new m (h ∷ rest) s = rw (delay_all_lem m (h ∷ rest) s) refl

  poll_message_lem :
      (m : Message) (s : State World)
      → IsReadable m
      → poll_message m s ≡ (
        ok tt,
        record s { queue = s.queue ++ tasks_for s m; acked = s.acked ++ (m.message_id ∷ []) },
      )
  unfolding poll_message
  poll_message_lem m s (envelope, readable) =
      elim (Bool-cases (is_processed m.message_id s.processed)) [
        | inl e ↦ rw e (rw (append-nil s.queue) refl)
        | inr e ↦
            rw (e, readable)
              (rw (poll_new m (get_handlers json World envelope.type registry) s) refl)
      ]

  -- Polling a batch of readable messages raises nothing, gives Celery one task for each handler of
  -- each message that is not processed yet, in order, and acknowledges every message; the tables
  -- and the application stay as they are.
  pub poll_dispatches :
      (batch : List Message) (s : State World)
      → All IsReadable batch
      → poll_stream batch s ≡ (
        ok tt,
        record s { queue = s.queue ++ tasks_of_batch s batch; acked = s.acked ++ ids batch },
      )
  unfolding poll_stream
  poll_dispatches [] s h = rw (append-nil s.queue, append-nil s.acked) refl
  poll_dispatches (m ∷ rest) s (h, hs) = rw (poll_message_lem m s h) (
      poll_dispatches rest
        (record s { queue = s.queue ++ tasks_for s m; acked = s.acked ++ (m.message_id ∷ []) }) hs
      ∙ rw
          (
            append_assoc s.queue (tasks_for s m) (tasks_of_batch s rest),
            append_assoc s.acked (m.message_id ∷ []) (ids rest),
          )
          refl)
