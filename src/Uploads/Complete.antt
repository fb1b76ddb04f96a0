-- ===== src/Uploads/Complete.antt =====
-- `uploads_complete` of src/dubbing_pipeline/web/routes/uploads.py: the checks, the move of the part
-- file to its final place, and what may follow, ffprobe and the encryption at rest.
use dubbing_pipeline.Base.{
  ℕ, Bool, true, not, ◌||◌, [], Text, length, ltb, ◌==◌, if◌then◌else◌, Option, none, some,
  is_empty, text_eq, lower, strip, codes, ok, err, require, ◌>>=◌, ◌>>◌,
}
use dubbing_pipeline.Crypto.Words
use dubbing_pipeline.Crypto.Container.{Aead, encrypt_bytes}
use dubbing_pipeline.Uploads.Part.{Bytes}
use dubbing_pipeline.Uploads.Plan.{missing_chunks}
use dubbing_pipeline.Uploads.Session.{Problem, Result, Session, is_sha}

-- Encryption at rest: off, on without a usable key, or on with a key and fresh nonces.
pub data Sealing : Type 0 where
  off : Sealing
  misconfigured : Sealing
  sealed_by : Aead → (ℕ → Bytes) → Sealing

-- A call of `uploads_complete`: the checksum in its body, and what the services and ffprobe answer.
pub record Completion : Type 0 where
  pub final_sha : Text
  pub within_quota : Bool
  pub media_valid : Bool
  pub sealing : Sealing

abbrev pub final_sha_of : Completion → Text
final_sha_of q = lower (strip q.final_sha)

-- part_path, if the file is there
unfoldable pub existing : Option Bytes → Result Bytes
existing none = err Problem.missing_data
existing (some file) = ok file

-- The checks under the lock; the part file as it passed them.
unfoldable pub check_complete : (Bytes → Text) → Session → Completion → Result Bytes
unfolding existing
check_complete sha256 s q = do
  require (not (ltb 0 s.upload.total_bytes) || q.within_quota) Problem.quota_exceeded
  require (ltb 0 s.upload.total_bytes) Problem.missing_data
  file ← existing s.part_file
  let missing = missing_chunks s.upload.total_bytes s.upload.chunk_bytes s.upload.received
  require (is_empty missing) (Problem.missing_chunks_left missing)
  require (length file == s.upload.total_bytes) Problem.file_size_mismatch
  require (is_empty (final_sha_of q) || text_eq (sha256 file) (final_sha_of q))
      Problem.final_checksum_mismatch
  let expected = lower (strip s.upload.expected_sha256)
  require (is_empty expected || text_eq (sha256 file) expected) Problem.final_checksum_mismatch
  ok file

-- Neither the part file nor a final file is left.
unfoldable pub dropped : Session → Session
dropped s = record s { part_file = none; final_file = none; sealed_file = none }

-- encrypt_file(final_path, enc_path, kind="uploads", job_id=None), and the removal of the plain file
unfoldable pub seal : Session → Bytes → Text → Words.Result Bytes → Session × Result (Unit {0})
unfolding dropped
seal s file sum (err e) = (dropped s, err Problem.encryption_failed)
seal s file sum (ok sealed) = (
  record s {
    upload = record (s.upload) { completed = true; encrypted = true; final_sha256 = sum };
    part_file = none;
    final_file = none;
    sealed_file = some sealed;
  },
  ok tt,
)

unfoldable pub keep_file : Session → Bytes → Text → Sealing → Session × Result (Unit {0})
unfolding dropped seal
keep_file s file sum Sealing.off = (
  record s {
    upload = record (s.upload) { completed = true; final_sha256 = sum };
    part_file = none;
    final_file = some file;
  },
  ok tt,
)
keep_file s file sum Sealing.misconfigured = (dropped s, err Problem.encryption_failed)
keep_file s file sum (Sealing.sealed_by key nonce) =
    seal s file sum (encrypt_bytes key nonce file (codes "uploads") [])

-- what follows the move of the part file to its final place
unfoldable pub after_move :
    (Bytes → Text) → Session → Completion → Result Bytes → Session × Result (Unit {0})
unfolding dropped keep_file
after_move sha256 s q (err e) = (s, err e)
after_move sha256 s q (ok file) =
    if q.media_valid
    then keep_file s file (sha256 file) q.sealing
    else (dropped s, err Problem.invalid_media)

unfoldable pub uploads_complete :
    (Bytes → Text) → Session → Completion → Session × Result (Unit {0})
unfolding after_move check_complete
uploads_complete sha256 s q =
    if is_empty (final_sha_of q) || is_sha (final_sha_of q)
    then if s.upload.completed
      then (s, ok tt)
      else after_move sha256 s q (check_complete sha256 s q)
    else (s, err Problem.invalid_final_sha)
