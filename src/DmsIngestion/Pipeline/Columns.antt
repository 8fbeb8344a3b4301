-- ===== src/DmsIngestion/Pipeline/Columns.antt =====
-- Which columns of the sessions a run of the pipeline writes.
use drf_enterprise_informati.Prelude.{
  String, ◌≡◌, refl, ◌∙◌, Option, none, some, List, [], ◌∷◌, map, ◌==◌, Result, ok, err, Bool-cases,
  inl, inr, is_set, or_empty,
}
use drf_enterprise_informati.DmsIngestion.Model.{
  State, processing, ready, document_created, validating, UploadSession, find_session, update_row,
}
use drf_enterprise_informati.DmsIngestion.Checks.{Config, validate_all}
use drf_enterprise_informati.DmsIngestion.Pipeline.{
  Outside, World, with_state, with_failure, transition, fail, publish, after_processing,
  after_validation, is_created, with_storage, run_session, run_found, run_pipeline, process_file,
  created_event,
}

-- What the processors derive, as the row holds it.
abbrev pub derived : UploadSession → String × Option String × Option String
derived s = (s.pk, s.checksum, s.extension)

abbrev pub DerivedKept : World → World → Type 0
DerivedKept w w' = map derived w'.sessions ≡ map derived w.sessions

kept-update_row :
    (pk : String) (write : UploadSession → UploadSession) (rows : List UploadSession)
    → ((s : UploadSession) → derived (write s) ≡ derived s)
    → map derived (update_row pk write rows) ≡ map derived rows
unfolding update_row
kept-update_row pk write [] h = refl
kept-update_row pk write (r ∷ rows) h = elim (Bool-cases (r.pk == pk)) [
  | inl e ↦ rw (e, h r, kept-update_row pk write rows h)
  | inr e ↦ rw (e, kept-update_row pk write rows h)
]

kept-transition :
    (session : UploadSession) (state : State) (w : World)
    → DerivedKept w (transition session state w)
unfolding transition
kept-transition session state w =
    kept-update_row session.pk (with_state state) w.sessions (λ s. refl)

kept-fail :
    (session : UploadSession) (detail : String) (w : World) → DerivedKept w (fail session detail w)
unfolding fail
kept-fail session detail w = kept-update_row session.pk (with_failure detail) w.sessions (λ s. refl)

module _ (cfg : Config) (out : Outside) where
  kept-publish :
      (error : Option String) (session : UploadSession) (w : World)
      → DerivedKept w (publish cfg error session w).1
  unfolding publish
  kept-publish (some e) session w = refl
  kept-publish none session w =
      kept-transition session document_created
        (record w { stream = created_event session ∷ w.stream })

  kept-after_processing :
      (session : UploadSession) (r : Result String UploadSession) (w : World)
      → DerivedKept w (after_processing cfg out session r w).1
  unfolding after_processing
  kept-after_processing session (err e) w = kept-fail session e w
  kept-after_processing session (ok processed) w =
      kept-publish out.redis_error (with_state ready processed) (transition processed ready w)
      ∙ kept-transition processed ready w

  kept-after_validation :
      (session : UploadSession) (r : Result String (Unit {0})) (w : World)
      → DerivedKept w (after_validation cfg out session r w).1
  unfolding after_validation
  kept-after_validation session (err e) w = kept-fail session (out.str_of e) w
  kept-after_validation session (ok _) w =
      kept-after_processing (with_state processing session)
        (process_file cfg out (with_state processing session)) (transition session processing w)
      ∙ kept-transition session processing w

  kept-with_storage :
      (error : Option String) (session : UploadSession) (w : World)
      → DerivedKept w (with_storage cfg error out session w).1
  unfolding with_storage
  kept-with_storage (some e) session w = refl
  kept-with_storage none session w = elim (Bool-cases (is_set (or_empty session.storage_key))) [
    | inl k ↦ rw (k) (
        kept-after_validation (with_state validating session)
          (validate_all out.str cfg session.size session.mime_type session.filename)
          (transition session validating w)
        ∙ kept-transition session validating w)
    | inr k ↦
        rw (k) (kept-fail session "No storage key found — file was never written to storage." w)
  ]

  kept-run_session :
      (session : UploadSession) (w : World) → DerivedKept w (run_session cfg out session w).1
  unfolding run_session
  kept-run_session session w = elim (Bool-cases (is_created session.state)) [
    | inl e ↦ rw e refl
    | inr e ↦ rw e (kept-with_storage out.storage_error session w)
  ]

  -- No run of the pipeline, whatever the processors compute and however it ends, changes the
  -- checksum or the extension in any row of the table.
  pub derived_never_saved :
      (session_id : String) (w : World) → DerivedKept w (run_pipeline cfg out session_id w).1
  unfolding run_pipeline run_found
  derived_never_saved session_id w = go (find_session session_id w.sessions)
    where
      go : (found : Option UploadSession) → DerivedKept w (run_found cfg out found w).1
      go none = refl
      go (some session) = kept-run_session session w
