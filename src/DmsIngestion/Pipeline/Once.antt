-- ===== src/DmsIngestion/Pipeline/Once.antt =====
-- Runs of the pipeline for one session, one after the other, as Celery's retries and repeated
-- deliveries of the task make them.
use drf_enterprise_informati.Prelude.{
  suc, ◌≤◌, String, ◌≡◌, refl, sym, true, some, List, [], ◌∷◌, arith, ◌==◌, eq_iff, Result, ok,
  Bool-cases, Option-cases, inl, inr, ◌⊎◌, length, All,
}
use mathlib.Core.Path.{subst}
use drf_enterprise_informati.DmsIngestion.Model.{document_created, UploadSession, find_session}
use drf_enterprise_informati.DmsIngestion.Checks.{Config}
use drf_enterprise_informati.DmsIngestion.Pipeline.{
  Outside, World, is_created, run_session, run_found, run_pipeline,
}
use drf_enterprise_informati.DmsIngestion.Pipeline.Rows.{KeepsKey}
use drf_enterprise_informati.DmsIngestion.Pipeline.Runs.{
  Ending, no_storage, no_key, not_allowed, not_processed, not_published, published, every_run,
}

find_session-pk :
    (pk : String) (rows : List UploadSession) (r : UploadSession)
    → find_session pk rows ≡ some r
    → r.pk ≡ pk
find_session-pk pk [] r h = cc
find_session-pk pk (x ∷ rows) r h = elim (Bool-cases (x.pk == pk)) [
  | inl e ↦ (let same : x ≡ r = ground arith in rw (← same) ((eq_iff x.pk pk).0 e))
  | inr e ↦ find_session-pk pk rows r (ground arith)
]

module _ (cfg : Config) (session_id : String) where
  pub runs : List Outside → World → World
  runs [] w = w
  runs (out ∷ rest) w = runs rest (run_pipeline cfg out session_id w).1

  -- The row says that the document is created.
  pub record Finished (w : World) : Type 0 where
    pub row : UploadSession
    pub stored : find_session session_id w.sessions ≡ some row
    pub created : is_created row.state ≡ true

  -- A run that finds the document created returns at once: no second event.
  run-Finished :
      (out : Outside) (w : World) → Finished w → run_pipeline cfg out session_id w ≡ (ok tt, w)
  unfolding run_pipeline run_session
  run-Finished out w f = rw (f.stored) (rw (f.created))

  runs-Finished : (outs : List Outside) (w : World) → Finished w → runs outs w ≡ w
  unfolding runs
  runs-Finished [] w f = refl
  runs-Finished (out ∷ rest) w f = rw (run-Finished out w f) (runs-Finished rest w f)

  abbrev Step : World → World → Type 0
  Step w after =
      (after.stream ≡ w.stream) ⊎ ((length after.stream ≡ suc (length w.stream)) × Finished after)

  row-Finished :
      (pk : String) (after : World) (row : UploadSession)
      → pk ≡ session_id
      → find_session pk after.sessions ≡ some row
      → row.state ≡ document_created
      → Finished after
  row-Finished pk after row same found state = record {
    row = row;
    stored = subst (λ k. find_session k after.sessions ≡ some row) same found;
    created = rw state refl;
  }

  Ending-Step :
      (out : Outside) (session : UploadSession) (w after : World) (result : Result _ _)
      → session.pk ≡ session_id
      → Ending cfg out session w result after
      → Step w after
  Ending-Step out session w after result same (no_storage _ _ _ e) = inl (rw e refl)
  Ending-Step out session w after result same (no_key _ _ _ s _) = inl s
  Ending-Step out session w after result same (not_allowed _ _ _ _ s _) = inl s
  Ending-Step out session w after result same (not_processed _ _ _ _ _ s _) = inl s
  Ending-Step out session w after result same (not_published _ _ _ _ _ _ _ s _) = inl s
  Ending-Step out session w after result same
        (published processed _ _ _ _ _ _ s (row, found, state)) =
      inr (rw s refl, row-Finished session.pk after row same found state)

  run-Step :
      (out : Outside) (w : World) → KeepsKey out → Step w (run_pipeline cfg out session_id w).1
  unfolding run_pipeline run_found
  run-Step out w keeps = elim (Option-cases (find_session session_id w.sessions)) [
    | inl e ↦ inl (rw e refl)
    | inr (session, e) ↦ elim (Bool-cases (is_created session.state)) [
      | inl done ↦
          inl (rw (run-Finished out w (record { row = session; stored = e; created = done })) refl)
      | inr open_state ↦
          (let same = find_session-pk session_id w.sessions session e in
            subst (λ k. Step w (run_pipeline cfg out k w).1) same
              (Ending-Step out session w _ _ same (
                every_run cfg out session w keeps
                  (subst (λ k. find_session k w.sessions ≡ some session) (sym same) e) open_state)))
    ]
  ]

  -- However often the pipeline is run for a session, and whatever each run meets, it publishes at
  -- most one event. The processors leave the primary key of the session alone.
  pub published_once :
      (outs : List Outside) (w : World)
      → All KeepsKey outs
      → length (runs outs w).stream ≤ suc (length w.stream)
  unfolding runs
  published_once [] w keeps = omega arith
  published_once (out ∷ rest) w (keep, keeps) = elim (run-Step out w keep) [
    | inl same ↦
        (let ih = published_once rest (run_pipeline cfg out session_id w).1 keeps in
          ground (arith, ih, same))
    | inr (more, done) ↦
        rw (runs-Finished rest (run_pipeline cfg out session_id w).1 done) (ground (arith, more))
  ]
