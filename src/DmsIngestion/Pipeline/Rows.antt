-- ===== src/DmsIngestion/Pipeline/Rows.antt =====
-- What a save finds and leaves in the table of sessions, and that processors which leave the
-- primary key alone do so in a row.
use drf_enterprise_informati.Prelude.{
  String, ◌≡◌, refl, ◌∙◌, some, List, [], ◌∷◌, arith, ◌==◌, ok, >>=-eq-ok, Bool-cases, inl, inr,
}
use drf_enterprise_informati.DmsIngestion.Model.{State, UploadSession, find_session, update_row}
use drf_enterprise_informati.DmsIngestion.Processors.{File, Processor}
use drf_enterprise_informati.DmsIngestion.Pipeline.{
  Outside, World, with_state, with_failure, transition, fail, build_pipeline, process_all,
}

find-update_row :
    (pk : String) (write : UploadSession → UploadSession) (r : UploadSession)
    (rows : List UploadSession)
    → ((s : UploadSession) → (write s).pk ≡ s.pk)
    → find_session pk rows ≡ some r
    → find_session pk (update_row pk write rows) ≡ some (write r)
unfolding update_row
find-update_row pk write r [] keeps h = cc
find-update_row pk write r (x ∷ rows) keeps h = elim (Bool-cases (x.pk == pk)) [
  | inl e ↦ ground (arith, keeps x, e)
  | inr e ↦ ground (arith, e, find-update_row pk write r rows keeps)
]

module _ (pk : String) (session : UploadSession) (same : session.pk ≡ pk) (w : World)
    (r : UploadSession) (found : find_session pk w.sessions ≡ some r) where
  pub found-transition :
      (state : State)
      → find_session pk (transition session state w).sessions ≡ some (with_state state r)
  unfolding transition
  found-transition state =
      rw same (find-update_row pk (with_state state) r w.sessions (λ s. refl) found)

  pub found-fail :
      (detail : String)
      → find_session pk (fail session detail w).sessions ≡ some (with_failure detail r)
  unfolding fail
  found-fail detail =
      rw same (find-update_row pk (with_failure detail) r w.sessions (λ s. refl) found)

-- A processor leaves the primary key of the session alone.
abbrev pub KeepsKey : Outside → Type 0
KeepsKey out =
    (path : String) (p : Processor) (session : UploadSession) (file : File)
    (done : UploadSession × File)
    → out.resolve_instance path ≡ ok p
    → p session file ≡ ok done
    → done.0.pk ≡ session.pk

abbrev pub AllKeep : List Processor → Type 0
AllKeep [] = Unit
AllKeep (p ∷ ps) =
    ((session : UploadSession) (file : File) (done : UploadSession × File)
      → p session file ≡ ok done
      → done.0.pk ≡ session.pk)
    × AllKeep ps

pub build-AllKeep :
    (out : Outside) (paths : List String) (ps : List Processor)
    → KeepsKey out
    → build_pipeline out paths ≡ ok ps
    → AllKeep ps
unfolding build_pipeline
build-AllKeep out [] [] keeps h = tt
build-AllKeep out [] (p ∷ ps) keeps h = absurd (ground arith)
build-AllKeep out (path ∷ paths) all keeps h =
    let (p, resolved, h') = >>=-eq-ok (out.resolve_instance path) _ h in
    let (ps, built, e) = >>=-eq-ok (build_pipeline out paths) _ h' in
    let same : p ∷ ps ≡ all = ground arith in
    rw (← same) (
      (λ session file done. keeps path p session file done resolved),
      build-AllKeep out paths ps keeps built,
    )

pub process_all-pk :
    (ps : List Processor) (session : UploadSession) (file : File) (processed : UploadSession)
    → AllKeep ps
    → process_all ps session file ≡ ok processed
    → processed.pk ≡ session.pk
unfolding process_all
process_all-pk [] session file processed keeps h = ground arith
process_all-pk (p ∷ ps) session file processed (keep, keeps) h =
    let (done, e, h') = >>=-eq-ok (p session file) _ h in
    process_all-pk ps done.0 done.1 processed keeps h' ∙ keep session file done e
