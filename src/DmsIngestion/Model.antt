-- ===== src/DmsIngestion/Model.antt =====
-- apps/dms_ingestion/models.py: the upload sessions, as a table of rows.
use drf_enterprise_informati.Prelude.{
  ℕ, String, Option, List, [], ◌∷◌, ◌==◌, if◌then◌else◌, find_first,
}

pub data State : Type 0 where
  new upload_requested uploading uploaded validating processing ready : State
  document_created completed failed expired cancelled quarantined : State

pub record UploadSession : Type 0 where
  pub pk : String
  pub tenant_id : String
  pub title : String
  pub document_type : Option String
  pub filename : String
  pub mime_type : String
  pub size : ℕ
  pub checksum : Option String
  pub extension : Option String
  pub state : State
  pub storage_key : Option String
  pub error_detail : Option String
  pub created_by : Option String

-- `UploadSession.objects.get(pk=…)`: primary keys are unique
abbrev pub find_session : String → List UploadSession → Option UploadSession
find_session pk rows = find_first (λ r. r.pk == pk) rows

-- `session.save(update_fields=…)`: only the columns that are named are written to the row.
unfoldable pub update_row :
    String → (UploadSession → UploadSession) → List UploadSession → List UploadSession
update_row pk write [] = []
update_row pk write (r ∷ rows) = (if r.pk == pk then write r else r) ∷ update_row pk write rows
