-- ===== src/Uploads/Session.antt =====
-- A session of src/dubbing_pipeline/web/routes/uploads.py: `uploads_init` for a new upload, the checks
-- and the write of `uploads_chunk`, and `uploads_complete`. Access and rate limits are checked before,
-- and are modelled in `Access` and `RateLimit`.
use dubbing_pipeline.Base.{
  Outcome, ℕ, ◌+◌, ◌*◌, Bool, true, false, not, ◌&&◌, ◌||◌, List, [], ◌∷◌, Text, length, ltb, leb,
  ◌==◌, if◌then◌else◌, Option, none, some, is_empty, text_eq, lower, strip, ℤ, pos, negsuc, min,
  max, ok, err, require, ◌>>=◌, ◌>>◌,
}
use dubbing_pipeline.Uploads.Part.{Bytes, write_at}
use dubbing_pipeline.Uploads.Plan.{
  Chunk, Received, lookup, set, sum_sizes, total_chunks, expected_chunk_size,
}

-- The refusals of the three handlers, by their detail.
pub data Problem : Type 0 where
  total_bytes_required : Problem
  invalid_expected_sha : Problem
  quota_exceeded : Problem
  invalid_session : Problem
  invalid_chunk_sha : Problem
  chunk_checksum_mismatch : Problem
  offset_out_of_bounds : Problem
  exceeds_total : Problem
  chunk_too_large : Problem
  index_out_of_bounds : Problem
  invalid_chunk_size : Problem
  offset_mismatch : Problem
  size_mismatch : Problem
  invalid_final_sha : Problem
  missing_data : Problem
  missing_chunks_left : List ℕ → Problem
  file_size_mismatch : Problem
  final_checksum_mismatch : Problem
  invalid_media : Problem
  encryption_failed : Problem

abbrev pub Result : Type 0 → Type 0
Result A = Outcome Problem A

-- The record of a session in the job store, as far as the handlers read it.
pub record Upload : Type 0 where
  pub total_bytes : ℕ
  pub chunk_bytes : ℕ
  pub expected_sha256 : Text
  pub final_sha256 : Text
  pub received : Received
  pub received_bytes : ℕ
  pub completed : Bool
  pub encrypted : Bool

-- The record with its files: the part file, the completed file, and the completed file encrypted, to
-- which the record's final path then points.
pub record Session : Type 0 where
  pub upload : Upload
  pub part_file : Option Bytes
  pub final_file : Option Bytes
  pub sealed_file : Option Bytes

-- [0-9a-f]
is_hex : ℕ → Bool
is_hex c = (leb b'0' c && leb c b'9') || (leb b'a' c && leb c b'f')

all_hex : Text → Bool
all_hex [] = true
all_hex (c ∷ s) = is_hex c && all_hex s

-- re.fullmatch(r"[0-9a-f]{64}", s)
unfoldable pub is_sha : Text → Bool
unfolding all_hex is_hex
is_sha s = length s == 64 && all_hex s

-- max(256 * 1024, min(chunk_bytes, 20 * 1024 * 1024))
unfoldable pub clamped : ℕ → ℕ
clamped chunk = max 262144 (min chunk 20971520)

-- the record of a new session
unfoldable pub fresh : ℕ → ℕ → Text → Session
unfolding clamped
fresh total setting sha = record {
  upload = record {
    total_bytes = total;
    chunk_bytes = clamped setting;
    expected_sha256 = sha;
    final_sha256 = [];
    received = [];
    received_bytes = 0;
    completed = false;
    encrypted = false;
  };
  part_file = none;
  final_file = none;
  sealed_file = none;
}

-- `uploads_init` of an upload that is not resumed
unfoldable pub init : ℕ → Bool → ℕ → Text → Result Session
unfolding is_sha
init total within_quota setting expected = do
  require (ltb 0 total) Problem.total_bytes_required
  require within_quota Problem.quota_exceeded
  let sha = lower (strip expected)
  require (is_empty sha || is_sha sha) Problem.invalid_expected_sha
  ok (fresh total setting sha)

-- A number of the request that is not below 0.
unfoldable pub at_least_0 : ℤ → Problem → Result ℕ
at_least_0 (pos n) e = ok n
at_least_0 (negsuc n) e = err e

-- What a call of `uploads_chunk` brings along.
pub record Request : Type 0 where
  pub index : ℤ
  pub offset : ℤ
  pub header : Text
  pub body : Bytes
  pub within_quota : Bool

abbrev pub sha_of : Request → Text
sha_of r = lower (strip r.header)

-- The checks of `uploads_chunk` before the lock; index and offset as they are used from there on.
unfoldable pub check_chunk : (Bytes → Text) → Upload → Request → Result (ℕ × ℕ)
unfolding is_sha at_least_0
check_chunk sha256 u r = do
  require (not (ltb 0 u.total_bytes) || r.within_quota) Problem.quota_exceeded
  require (ltb 0 u.total_bytes) Problem.invalid_session
  require (is_sha (sha_of r)) Problem.invalid_chunk_sha
  require (text_eq (sha256 r.body) (sha_of r)) Problem.chunk_checksum_mismatch
  offset ← at_least_0 r.offset Problem.offset_out_of_bounds
  require (ltb offset u.total_bytes) Problem.offset_out_of_bounds
  require (leb (offset + length r.body) u.total_bytes) Problem.exceeds_total
  require (not (ltb 0 u.chunk_bytes && ltb (u.chunk_bytes + 1024) (length r.body)))
      Problem.chunk_too_large
  idx ← at_least_0 r.index Problem.index_out_of_bounds
  require (ltb 0 (total_chunks u.total_bytes u.chunk_bytes)) Problem.invalid_chunk_size
  require (ltb idx (total_chunks u.total_bytes u.chunk_bytes)) Problem.index_out_of_bounds
  require (offset == idx * u.chunk_bytes) Problem.offset_mismatch
  require (ltb 0 (expected_chunk_size idx u.total_bytes u.chunk_bytes)) Problem.invalid_chunk_size
  require (length r.body == expected_chunk_size idx u.total_bytes u.chunk_bytes)
      Problem.size_mismatch
  ok (idx, offset)

-- already accepted?
unfoldable pub is_same : Option Chunk → ℕ → Text → Bytes → Bool
is_same none offset sha body = false
is_same (some c) offset sha body =
    text_eq c.sha256 sha && c.size == length body && c.offset == offset

-- A part file that is not there is made by the write.
abbrev pub bytes_of : Option Bytes → Bytes
bytes_of none = []
bytes_of (some file) = file

pub data Answer : Type 0 where
  already_completed : Answer
  dedup : ℕ → Answer
  stored : ℕ → Answer

-- `uploads_chunk` under the lock
unfoldable pub store_chunk : Session → ℕ → ℕ → Text → Bytes → Session × Answer
unfolding is_same
store_chunk s idx offset sha body =
    if is_same (lookup idx s.upload.received) offset sha body
    then (s, Answer.dedup s.upload.received_bytes)
    else let received =
        set idx (record { offset = offset; size = length body; sha256 = sha }) s.upload.received in
      let upload = record (s.upload) { received = received; received_bytes = sum_sizes received } in
      (
        record s {
          upload = upload;
          part_file = some (write_at offset body (bytes_of s.part_file));
        },
        Answer.stored (sum_sizes received),
      )

-- the write, where the checks have passed
unfoldable pub after_checks : Session → Text → Bytes → Result (ℕ × ℕ) → Session × Result Answer
after_checks s sha body (err e) = (s, err e)
after_checks s sha body (ok (idx, offset)) =
    let (t, a) = store_chunk s idx offset sha body in (t, ok a)

-- What follows the test for a completed upload. That test is outside the lock, so that other calls may
-- come between it and the write; the other checks read the sizes of the session, which never change.
unfoldable pub late_chunk : (Bytes → Text) → Session → Request → Session × Result Answer
unfolding after_checks check_chunk
late_chunk sha256 s r = after_checks s (sha_of r) r.body (check_chunk sha256 s.upload r)

-- `uploads_chunk`, with no other call between that test and the write
unfoldable pub uploads_chunk : (Bytes → Text) → Session → Request → Session × Result Answer
unfolding late_chunk
uploads_chunk sha256 s r =
    if s.upload.completed then (s, ok Answer.already_completed) else late_chunk sha256 s r
