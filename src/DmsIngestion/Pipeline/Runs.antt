-- ===== src/DmsIngestion/Pipeline/Runs.antt =====
-- How a run of the pipeline ends, and that however often it is run it publishes one event.
use drf_enterprise_informati.Prelude.{
  String, ◌≡◌, refl, true, false, Option, none, some, ◌∷◌, arith, Result, ok, err, >>=-eq-ok,
  Bool-cases, inl, inr, is_set, or_empty,
}
use drf_enterprise_informati.DmsIngestion.Model.{
  State, validating, processing, ready, failed, document_created, UploadSession, find_session,
}
use drf_enterprise_informati.DmsIngestion.Checks.{Config, validate_all, IsAllowed, validate_all_iff}
use drf_enterprise_informati.DmsIngestion.Pipeline.{
  Outside, World, PipelineError, validation_error, raised, with_state, transition, publish,
  after_processing, after_validation, is_created, with_storage, run_session, run_pipeline,
  build_pipeline, process_file, created_event,
}
use drf_enterprise_informati.DmsIngestion.Pipeline.Rows.{
  KeepsKey, build-AllKeep, process_all-pk, found-transition, found-fail,
}

module _ (cfg : Config) where
  process_file-pk :
      (out : Outside) (session processed : UploadSession)
      → KeepsKey out
      → process_file cfg out session ≡ ok processed
      → processed.pk ≡ session.pk
  unfolding process_file
  process_file-pk out session processed keeps h =
      let (file, _, h') = >>=-eq-ok (out.open_file (or_empty session.storage_key)) _ h in
      let (ps, built, e) = >>=-eq-ok (build_pipeline out cfg.pipeline_processors) _ h' in
      process_all-pk ps session file processed
        (build-AllKeep out cfg.pipeline_processors ps keeps built) e

  -- The session as the processors see it.
  abbrev pub in_processing : UploadSession → UploadSession
  in_processing session = with_state processing (with_state validating session)

  abbrev StateIs : String → State → World → Type 0
  StateIs pk state w =
      (row : UploadSession) × (find_session pk w.sessions ≡ some row) × (row.state ≡ state)

  -- How a run ends for a session that is stored and has no document yet: the result, the event and
  -- the state that the row is left in.
  pub data Ending (out : Outside) (session : UploadSession) (w : World)
      (result : Result PipelineError (Unit {0})) (after : World) : Type 0 where
    no_storage :
        (error : String)
        → out.storage_error ≡ some error
        → result ≡ err (raised error)
        → after ≡ w
        → Ending out session w result after
    no_key :
        out.storage_error ≡ none
        → is_set (or_empty session.storage_key) ≡ false
        → result ≡ ok tt
        → after.stream ≡ w.stream
        → StateIs session.pk failed after
        → Ending out session w result after
    not_allowed :
        (message : String)
        → out.storage_error ≡ none
        → ¬ (IsAllowed out.str cfg session.size session.mime_type session.filename)
        → result ≡ err (validation_error message)
        → after.stream ≡ w.stream
        → StateIs session.pk failed after
        → Ending out session w result after
    not_processed :
        (error : String)
        → out.storage_error ≡ none
        → IsAllowed out.str cfg session.size session.mime_type session.filename
        → process_file cfg out (in_processing session) ≡ err error
        → result ≡ err (raised error)
        → after.stream ≡ w.stream
        → StateIs session.pk failed after
        → Ending out session w result after
    not_published :
        (error : String) (processed : UploadSession)
        → out.storage_error ≡ none
        → IsAllowed out.str cfg session.size session.mime_type session.filename
        → process_file cfg out (in_processing session) ≡ ok processed
        → out.redis_error ≡ some error
        → result ≡ err (raised error)
        → after.stream ≡ w.stream
        → StateIs session.pk ready after
        → Ending out session w result after
    published :
        (processed : UploadSession)
        → out.storage_error ≡ none
        → is_set (or_empty session.storage_key) ≡ true
        → IsAllowed out.str cfg session.size session.mime_type session.filename
        → process_file cfg out (in_processing session) ≡ ok processed
        → out.redis_error ≡ none
        → result ≡ ok tt
        → after.stream ≡ created_event processed ∷ w.stream
        → StateIs session.pk document_created after
        → Ending out session w result after

  module _ (out : Outside) (keeps : KeepsKey out) (session : UploadSession) (w : World)
      (stored : find_session session.pk w.sessions ≡ some session)
      (available : out.storage_error ≡ none)
      (keyed : is_set (or_empty session.storage_key) ≡ true) where
    abbrev w1 : World
    w1 = transition (with_state validating session) processing (transition session validating w)

    at_processing : find_session session.pk w1.sessions ≡ some (in_processing session)
    at_processing =
        found-transition session.pk (with_state validating session) refl
          (transition session validating w) (with_state validating session)
          (found-transition session.pk session refl w session stored validating) processing

    stream-w1 : w1.stream ≡ w.stream
    unfolding transition
    stream-w1 = refl

    end_published :
        (allowed : IsAllowed out.str cfg session.size session.mime_type session.filename)
        (processed : UploadSession)
        → process_file cfg out (in_processing session) ≡ ok processed
        → (error : Option String) → out.redis_error ≡ error
        → Ending out session w
            (publish cfg error (with_state ready processed) (transition processed ready w1)).0
            (publish cfg error (with_state ready processed) (transition processed ready w1)).1
    unfolding publish
    end_published allowed processed e (some error) e' =
        let same : processed.pk ≡ session.pk =
          process_file-pk out (in_processing session) processed keeps e in
        not_published error processed available allowed e e' refl refl (
          _,
          found-transition session.pk processed same w1 (in_processing session) at_processing ready,
          refl,
        )
    end_published allowed processed e none e' =
        let same : processed.pk ≡ session.pk =
          process_file-pk out (in_processing session) processed keeps e in
        published processed available keyed allowed e e' refl refl (
          _,
          found-transition session.pk (with_state ready processed) same
              (record (transition processed ready w1) {
                stream =
                    created_event (with_state ready processed)
                    ∷ (transition processed ready w1).stream;
              })
              (with_state ready (in_processing session))
              (found-transition session.pk processed same w1 (in_processing session) at_processing
                ready)
              document_created,
          refl,
        )

    end_processed :
        (allowed : IsAllowed out.str cfg session.size session.mime_type session.filename)
        (r : Result String UploadSession)
        → process_file cfg out (in_processing session) ≡ r
        → Ending out session w
            (after_processing cfg out (in_processing session) r w1).0
            (after_processing cfg out (in_processing session) r w1).1
    unfolding after_processing
    end_processed allowed (err error) e = not_processed error available allowed e refl refl (
      _,
      found-fail session.pk (in_processing session) refl w1 (in_processing session) at_processing
          error,
      refl,
    )
    end_processed allowed (ok processed) e = end_published allowed processed e out.redis_error refl

    end_validated :
        (r : Result String (Unit {0}))
        → validate_all out.str cfg session.size session.mime_type session.filename ≡ r
        → Ending out session w
            (after_validation cfg out
              (with_state validating session)
              r
              (transition session validating w)).0
            (after_validation cfg out
              (with_state validating session)
              r
              (transition session validating w)).1
    unfolding after_validation
    end_validated (err message) e =
        let allowed_iff =
          validate_all_iff out.str cfg session.size session.mime_type session.filename in
        not_allowed message available (λ a. absurd (ground (arith, allowed_iff.1 a))) refl refl
          (
            _,
            found-fail session.pk (with_state validating session) refl
                (transition session validating w) (with_state validating session)
                (found-transition session.pk session refl w session stored validating)
                (out.str_of message),
            refl,
          )
    end_validated (ok u) e =
        end_processed
          ((validate_all_iff out.str cfg session.size session.mime_type session.filename).0 (cc))
          (process_file cfg out (in_processing session)) refl

  with_backend :
      (out : Outside) (session : UploadSession) (w : World)
      → KeepsKey out
      → find_session session.pk w.sessions ≡ some session
      → (error : Option String) → out.storage_error ≡ error
      → Ending out session w
          (with_storage cfg error out session w).0
          (with_storage cfg error out session w).1
  unfolding with_storage
  with_backend out session w keeps stored (some error) e = no_storage error e refl refl
  with_backend out session w keeps stored none e =
      elim (Bool-cases (is_set (or_empty session.storage_key))) [
        | inl key ↦ rw (key) (
            end_validated out keeps session w stored e key
              (validate_all out.str cfg session.size session.mime_type session.filename) refl)
        | inr none_set ↦ rw (none_set) (
            no_key e none_set refl refl (
              _,
              found-fail session.pk session refl w session stored
                  "No storage key found — file was never written to storage.",
              refl,
            ))
      ]

  -- A run for a stored session without a document ends in one of six ways. If the storage backend
  -- cannot be made, the run raises and changes nothing. Without a storage key, with a file that the
  -- settings do not allow, or with a processor that fails, the row is left failed and no event is
  -- published. If only Redis refuses the event, the row is left ready and none is published.
  -- Otherwise exactly one event is published, with what the processors set, and the row says so.
  -- The processors leave the primary key of the session alone.
  pub every_run :
      (out : Outside) (session : UploadSession) (w : World)
      → KeepsKey out
      → find_session session.pk w.sessions ≡ some session
      → is_created session.state ≡ false
      → Ending out session w
          (run_pipeline cfg out session.pk w).0
          (run_pipeline cfg out session.pk w).1
  unfolding run_pipeline run_session
  every_run out session w keeps stored open_state =
      rw stored (rw open_state (with_backend out session w keeps stored out.storage_error refl))
