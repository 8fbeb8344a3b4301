-- ===== src/DmsIngestion/Pipeline.antt =====
-- apps/dms_ingestion/services.py and tasks.py: the ingestion pipeline of one upload session. A query
-- or a save of the database does not fail here.
pub mod Rows
pub mod Runs
pub mod Columns
pub mod Once
use drf_enterprise_informati.Prelude.{
  ℕ, zero, suc, String, Bool, true, false, not, Option, none, some, List, [], ◌∷◌, if◌then◌else◌,
  Result, ok, err, ◌>>=◌, is_set, or_empty,
}
use drf_enterprise_informati.DmsIngestion.Model.{
  State, validating, processing, ready, document_created, failed, UploadSession, find_session,
  update_row,
}
use drf_enterprise_informati.DmsIngestion.Checks.{Config, validate_all}
use drf_enterprise_informati.DmsIngestion.Processors.{File, Processor}

-- What a run meets: the texts of numbers and of a ValidationError, whether `get_storage_backend`
-- fails, the storage backend, the modules that `resolve_instance` imports, and whether Redis refuses
-- the event. An error is the exception's text.
pub record Outside : Type 0 where
  pub str : ℕ → String
  pub str_of : String → String
  pub storage_error : Option String
  pub open_file : String → Result String File
  pub resolve_instance : String → Result String Processor
  pub redis_error : Option String

pub data PipelineError : Type 0 where
  does_not_exist : PipelineError
  validation_error raised : String → PipelineError

-- The event `document.created`: its payload, tenant and actor.
pub record Created : Type 0 where
  pub session_id : String
  pub title : String
  pub document_type : Option String
  pub filename : String
  pub mime_type : String
  pub size : ℕ
  pub checksum : Option String
  pub extension : Option String
  pub storage_key : Option String
  pub tenant_id : String
  pub actor_id : Option String

-- The rows, and the events on the bus, newest first.
pub record World : Type 0 where
  pub sessions : List UploadSession
  pub stream : List Created

abbrev pub created_event : UploadSession → Created
created_event s = record {
  session_id = s.pk;
  title = s.title;
  document_type = s.document_type;
  filename = s.filename;
  mime_type = s.mime_type;
  size = s.size;
  checksum = s.checksum;
  extension = s.extension;
  storage_key = s.storage_key;
  tenant_id = s.tenant_id;
  actor_id = s.created_by;
}

abbrev pub with_state : State → UploadSession → UploadSession
with_state state session = record session { state = state }

abbrev pub with_failure : String → UploadSession → UploadSession
with_failure detail session = record session { state = failed; error_detail = some detail }

unfoldable pub transition : UploadSession → State → World → World
transition session state w = record w {
  sessions = update_row session.pk (with_state state) w.sessions;
}

unfoldable pub fail : UploadSession → String → World → World
fail session detail w = record w {
  sessions = update_row session.pk (with_failure detail) w.sessions;
}

abbrev pub is_created : State → Bool
is_created document_created = true
is_created _ = false

-- `[resolve_instance(path) for path in …]`
unfoldable pub build_pipeline : Outside → List String → Result String (List Processor)
build_pipeline out [] = ok []
build_pipeline out (path ∷ paths) = do
  processor ← out.resolve_instance path
  processors ← build_pipeline out paths
  ok (processor ∷ processors)

unfoldable pub process_all : List Processor → UploadSession → File → Result String UploadSession
process_all [] session file = ok session
process_all (processor ∷ processors) session file = do
  done ← processor session file
  process_all processors done.0 done.1

module _ (cfg : Config) where
  -- The body of the second `try`.
  unfoldable pub process_file : Outside → UploadSession → Result String UploadSession
  unfolding build_pipeline process_all
  process_file out session = do
    file ← out.open_file (or_empty session.storage_key)
    processors ← build_pipeline out cfg.pipeline_processors
    process_all processors session file

  unfoldable pub publish :
      Option String → UploadSession → World → Result PipelineError (Unit {0}) × World
  unfolding transition
  publish (some error) session w = (err (raised error), w)
  publish none session w = (
    ok tt,
    transition session document_created (record w { stream = created_event session ∷ w.stream }),
  )

  unfoldable pub after_processing :
      Outside
      → UploadSession
      → Result String UploadSession
      → World
      → Result PipelineError (Unit {0}) × World
  unfolding publish fail transition
  after_processing out session (err error) w = (err (raised error), fail session error w)
  after_processing out session (ok processed) w =
      publish out.redis_error (with_state ready processed) (transition processed ready w)

  unfoldable pub after_validation :
      Outside
      → UploadSession
      → Result String (Unit {0})
      → World
      → Result PipelineError (Unit {0}) × World
  unfolding after_processing process_file fail transition
  after_validation out session (err message) w =
      (err (validation_error message), fail session (out.str_of message) w)
  after_validation out session (ok _) w =
      let running = with_state processing session in
      after_processing out running (process_file out running) (transition session processing w)

  -- What follows `get_storage_backend()`, which fails or not.
  unfoldable pub with_storage :
      Option String → Outside → UploadSession → World → Result PipelineError (Unit {0}) × World
  unfolding after_validation validate_all fail transition
  with_storage (some error) out session w = (err (raised error), w)
  with_storage none out session w =
      if is_set (or_empty session.storage_key)
      then after_validation out (with_state validating session)
          (validate_all out.str cfg session.size session.mime_type session.filename)
          (transition session validating w)
      else (ok tt, fail session "No storage key found — file was never written to storage." w)

  unfoldable pub run_session :
      Outside → UploadSession → World → Result PipelineError (Unit {0}) × World
  unfolding with_storage
  run_session out session w =
      if is_created session.state then (ok tt, w) else with_storage out.storage_error out session w

  unfoldable pub run_found :
      Outside → Option UploadSession → World → Result PipelineError (Unit {0}) × World
  unfolding run_session
  run_found out none w = (err does_not_exist, w)
  run_found out (some session) w = run_session out session w

  pub run_pipeline : Outside → String → World → Result PipelineError (Unit {0}) × World
  unfolding run_found
  run_pipeline out session_id w = run_found out (find_session session_id w.sessions) w

  -- `run_pipeline_task`: the task is run again while it raises and retries are left; each run meets
  -- what is outside as it is then.
  unfoldable pub attempts :
      List Outside → Outside → String → World → Result PipelineError (Unit {0}) × World
  unfolding run_pipeline
  attempts [] out session_id w = run_pipeline out session_id w
  attempts (next ∷ later) out session_id w =
      let done = run_pipeline out session_id w in
      let again = attempts later next session_id done.1 in
      elim done.0 [ ok _ ↦ done | err _ ↦ again ]

  pub run_pipeline_task :
      Outside
      → Outside
      → Outside
      → Outside
      → String
      → World
      → Result PipelineError (Unit {0}) × World
  unfolding attempts
  run_pipeline_task first second third fourth session_id w =
      attempts (second ∷ third ∷ fourth ∷ []) first session_id w
