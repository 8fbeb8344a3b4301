-- ===== src/DmsIngestion/Processors.antt =====
-- apps/dms_ingestion/processors.py: the checksum and the extension of an uploaded file.
use drf_enterprise_informati.Prelude.{
  ℕ, zero, suc, ◌-◌, ◌≤◌, String, ◌≡◌, refl, sym, ◌∙◌, true, some, List, [], ◌∷◌, ◌++◌, arith,
  if◌then◌else◌, Result, ok, length, is_empty, or_none, Bool-cases, inl, inr,
}
use drf_enterprise_informati.Core.PyPath.{lower, ext_of}
use drf_enterprise_informati.DmsIngestion.Model.{UploadSession}

-- `hashlib.sha256`: updates with the parts of a text amount to one update with the text.
pub record Hash : Type 1 where
  pub Digest : Type 0
  pub start : Digest
  pub update : Digest → List ℕ → Digest
  pub hexdigest : Digest → String
  pub update-nil : (d : Digest) → update d [] ≡ d
  pub update-append : (d : Digest) (a b : List ℕ) → update (update d a) b ≡ update d (a ++ b)

-- An open file of bytes: its content and what is left to read.
pub record File : Type 0 where
  pub content : List ℕ
  pub unread : List ℕ

-- `file.seek(0)`
abbrev pub rewind : File → File
rewind file = record file { unread = file.content }

-- An error is the text of the exception.
abbrev pub Processor : Type 0
Processor = UploadSession → File → Result String (UploadSession × File)

pub take : ℕ → List ℕ → List ℕ
take zero bytes = []
take (suc n) [] = []
take (suc n) (b ∷ bytes) = b ∷ take n bytes

pub drop : ℕ → List ℕ → List ℕ
drop zero bytes = bytes
drop (suc n) [] = []
drop (suc n) (b ∷ bytes) = drop n bytes

take-drop : (n : ℕ) (bytes : List ℕ) → take n bytes ++ drop n bytes ≡ bytes
unfolding take drop
take-drop zero bytes = refl
take-drop (suc n) [] = refl
take-drop (suc n) (b ∷ bytes) = rw (take-drop n bytes)

length-drop : (n : ℕ) (bytes : List ℕ) → length (drop n bytes) ≡ length bytes - n
unfolding drop
length-drop zero bytes = omega arith
length-drop (suc n) [] = omega arith
length-drop (suc n) (b ∷ bytes) = omega (arith, length-drop n bytes)

module _ (hash : Hash) where
  open hash use {Digest, start, update, hexdigest, update-nil, update-append}

  -- The loop of `process`: fuel, the size of a chunk, the bytes to read.
  pub digest_chunks : ℕ → ℕ → List ℕ → Digest → Digest
  unfolding take drop
  digest_chunks zero size bytes d = d
  digest_chunks (suc fuel) size bytes d =
      let rest = digest_chunks fuel size (drop size bytes) (update d (take size bytes)) in
      if is_empty (take size bytes) then d else rest

  abbrev chunk_size : ℕ
  chunk_size = 8192

  -- `ChecksumProcessor.process`
  unfoldable pub checksum_processor : Processor
  unfolding digest_chunks
  checksum_processor session file =
      let opened = rewind file in
      ok (
        record session {
          checksum =
              some
                (hexdigest (digest_chunks (length opened.unread) chunk_size opened.unread start));
        },
        rewind opened,
      )

  empty_chunk : (n : ℕ) (bytes : List ℕ) → is_empty (take (suc n) bytes) ≡ true → bytes ≡ []
  unfolding take
  empty_chunk n [] h = refl
  empty_chunk n (b ∷ bytes) h = absurd (ground arith)

  nil_of_empty : (bytes : List ℕ) → length bytes ≤ 0 → bytes ≡ []
  nil_of_empty [] h = refl
  nil_of_empty (b ∷ bytes) h = absurd (omega arith)

  -- With as much fuel as there are bytes the loop reads to the end.
  digest_chunks_all :
      (fuel n : ℕ) (bytes : List ℕ) (d : Digest)
      → length bytes ≤ fuel
      → digest_chunks fuel (suc n) bytes d ≡ update d bytes
  unfolding digest_chunks
  digest_chunks_all zero n bytes d h = rw (nil_of_empty bytes h) (sym (update-nil d))
  digest_chunks_all (suc fuel) n bytes d h = elim (Bool-cases (is_empty (take (suc n) bytes))) [
    | inl e ↦ rw e (rw (empty_chunk n bytes e) (sym (update-nil d)))
    | inr e ↦
        (let shorter : length (drop (suc n) bytes) ≤ fuel =
            omega (arith, length-drop (suc n) bytes) in
          rw e (
            digest_chunks_all fuel n (drop (suc n) bytes) (update d (take (suc n) bytes)) shorter
            ∙ update-append d (take (suc n) bytes) (drop (suc n) bytes)
            ∙ rw (take-drop (suc n) bytes)))
  ]

  -- Wherever the file was read to before, the checksum that is set is the hash of the whole
  -- content, nothing else of the session changes, and the file is left at its start.
  pub checksum_whole :
      (session : UploadSession) (file : File)
      → checksum_processor session file
        ≡ ok (
          record session { checksum = some (hexdigest (update start file.content)) },
          rewind file,
        )
  unfolding checksum_processor
  checksum_whole session file =
      rw (digest_chunks_all (length file.content) 8191 file.content start (omega arith))

-- `MetadataProcessor.process`
unfoldable pub metadata_processor : Processor
metadata_processor session file =
    ok (record session { extension = or_none (lower (ext_of session.filename)) }, file)
