-- ===== src/DmsIngestion/Tests.antt =====
-- The pipeline on a concrete file, with a hash that is the length of the file.
use drf_enterprise_informati.Prelude.{
  ℕ, ◌+◌, ◌≤◌, String, ◌≡◌, refl, ap, ◌∙◌, Bool, true, false, none, some, List, [], ◌∷◌, ◌++◌,
  arith, ◌==◌, Result, ok, length, length-append, if◌then◌else◌, nat_eq,
}
use drf_enterprise_informati.DmsIngestion.Model.{uploaded, UploadSession}
use drf_enterprise_informati.DmsIngestion.Checks.{Config}
use drf_enterprise_informati.DmsIngestion.Processors.{
  Hash, File, Processor, rewind, checksum_processor, metadata_processor, checksum_whole,
}
use drf_enterprise_informati.DmsIngestion.Pipeline.{Outside, World, run_pipeline}
use drf_enterprise_informati.DmsIngestion.Pipeline.Rows.{KeepsKey}
use drf_enterprise_informati.DmsIngestion.Pipeline.Runs.{Ending, every_run}
use drf_enterprise_informati.DmsIngestion.Pipeline.Once.{runs, published_once}
use drf_enterprise_informati.DmsIngestion.Pipeline.Columns.{DerivedKept, derived_never_saved}

append_length : (d : ℕ) (a b : List ℕ) → (d + length a) + length b ≡ d + length (a ++ b)
append_length d a b = omega (arith, length-append a b)

abbrev hex : ℕ → String
hex n = if nat_eq n 3 then "three" else "other"

abbrev by_length : Hash
by_length = record {
  Digest = ℕ;
  start = 0;
  update = λ d bytes. d + length bytes;
  hexdigest = hex;
  update-nil = λ d. omega arith;
  update-append = append_length;
}

abbrev file : File
file = record { content = 1 ∷ 2 ∷ 3 ∷ []; unread = 3 ∷ [] }

abbrev session : UploadSession
session = record {
  pk = "s1";
  tenant_id = "t1";
  title = "Report";
  document_type = none;
  filename = "report.PDF";
  mime_type = "application/pdf";
  size = 3;
  checksum = none;
  extension = none;
  state = uploaded;
  storage_key = some "k1";
  error_detail = none;
  created_by = some "u1";
}

abbrev cfg : Config
cfg = record {
  max_file_size_bytes = 10;
  allowed_mime_types = "application/pdf" ∷ [];
  allowed_extensions = ".pdf" ∷ [];
  pipeline_processors = "checksum" ∷ "metadata" ∷ [];
}

abbrev str : ℕ → String
str n = "n"

abbrev resolve : String → Result String Processor
resolve path =
    if path == "checksum" then ok (checksum_processor by_length) else ok metadata_processor

abbrev outside : Outside
outside = record {
  str = str;
  str_of = λ message. message;
  storage_error = none;
  open_file = λ key. ok file;
  resolve_instance = resolve;
  redis_error = none;
}

abbrev redis_down : Outside
redis_down = record outside { redis_error = some "ConnectionError" }

abbrev w : World
w = record { sessions = session ∷ []; stream = [] }

checksum_whole_example :
    checksum_processor by_length session file
    ≡ ok (record session { checksum = some (hex (0 + length file.content)) }, rewind file)
checksum_whole_example = checksum_whole by_length session file

keeps_of :
    (s : UploadSession) (made done : UploadSession × File)
    → made.0.pk ≡ s.pk
    → ◌≡◌ {A = Result String (UploadSession × File)} (ok made) (ok done)
    → done.0.pk ≡ s.pk
keeps_of s made done same h = let e : made ≡ done = cc in rw e at same

resolved_keeps :
    (p : Processor) (b : Bool)
    → ◌≡◌ {A = Result String Processor}
        (if b then ok (checksum_processor by_length) else ok metadata_processor)
        (ok p)
    → (s : UploadSession) (f : File) (done : UploadSession × File) → p s f ≡ ok done
    → done.0.pk ≡ s.pk
unfolding checksum_processor metadata_processor
resolved_keeps p true e s f done h =
    let same : checksum_processor by_length ≡ p = cc in
    keeps_of s _ done refl (ap (λ (q : Processor). q s f) same ∙ h)
resolved_keeps p false e s f done h =
    let same : metadata_processor ≡ p = cc in
    keeps_of s _ done refl (ap (λ (q : Processor). q s f) same ∙ h)

keeps : KeepsKey outside
keeps path p s f done resolved h = resolved_keeps p (path == "checksum") resolved s f done h

keeps_down : KeepsKey redis_down
keeps_down = keeps

every_run_example :
    Ending cfg outside session w
      (run_pipeline cfg outside "s1" w).0
      (run_pipeline cfg outside "s1" w).1
every_run_example = every_run cfg outside session w keeps refl refl

derived_never_saved_example : DerivedKept w (run_pipeline cfg outside "s1" w).1
derived_never_saved_example = derived_never_saved cfg outside "s1" w

published_once_example : length (runs cfg "s1" (redis_down ∷ outside ∷ outside ∷ []) w).stream ≤ 1
published_once_example =
    published_once cfg "s1" (redis_down ∷ outside ∷ outside ∷ []) w
      (keeps_down, (keeps, (keeps, tt)))
