-- ===== src/Uploads/Examples.antt =====
-- Uploads of six bytes through the calls of src/dubbing_pipeline/web/routes/uploads.py.
use dubbing_pipeline.Base.{
  List, ◌⊎◌, ℕ, zero, suc, ◌+◌, ◌*◌, ◌%◌, ◌<◌, ◌≡◌, ◌≢◌, refl, inl, true, false, [], ◌∷◌, Text,
  codes, none, some, pos, negsuc, text_eq, lower, strip, is_empty, ◌||◌, ok, err,
}
use dubbing_pipeline.Uploads.Part.{Bytes, write_at, slice}
use dubbing_pipeline.Uploads.Plan.{
  Chunk, lookup, set, sum_sizes, total_chunks, missing_chunks, expected_chunk_size, next_expected,
}
use dubbing_pipeline.Uploads.Session.{
  Problem, Session, Request, Answer, sha_of, is_sha, is_same, fresh, init, check_chunk, store_chunk,
  after_checks, late_chunk, uploads_chunk,
}
use dubbing_pipeline.Uploads.Receive.{IsValid}
use dubbing_pipeline.Uploads.History.{
  Call, chunk, complete, run, AreIntact, run-IsValid, run-Whole, completion_succeeds,
}
use dubbing_pipeline.Uploads.Complete.{
  off, misconfigured, Completion, final_sha_of, check_complete, after_move, uploads_complete,
}
use dubbing_pipeline.Uploads.Finish.{Whole, Kept, IsLawful}
use dubbing_pipeline.Uploads.Retry.{retry_stuck}

abbrev repeat : ℕ → Text
repeat zero = []
repeat (suc n) = b'a' ∷ repeat n

-- A checksum of 64 hexadecimal digits that depends on the sum of the bytes.
sum : Bytes → ℕ
sum [] = 0
sum (b ∷ bs) = b + sum bs

toy_sha : Bytes → Text
unfolding sum
toy_sha b = (48 + sum b % 10) ∷ repeat 63

abbrev movie : Bytes
movie = codes "movie1"

abbrev begun : Session
begun = fresh 6 1000 []

begun_by_init : init 6 true 1000 [] ≡ ok begun
unfolding init lower strip
begun_by_init = refl

abbrev request : Request
request = record {
  index = pos 0;
  offset = pos 0;
  header = toy_sha movie;
  body = movie;
  within_quota = true;
}

abbrev filled : Session
filled = record {
  upload = record {
    total_bytes = 6;
    chunk_bytes = 262144;
    expected_sha256 = [];
    final_sha256 = [];
    received = (0, record { offset = 0; size = 6; sha256 = toy_sha movie }) ∷ [];
    received_bytes = 6;
    completed = false;
    encrypted = false;
  };
  part_file = some movie;
  final_file = none;
  sealed_file = none;
}

abbrev plain : Completion
plain = record { final_sha = toy_sha movie; within_quota = true; media_valid = true; sealing = off }

abbrev broken : Completion
broken = record {
  final_sha = toy_sha movie;
  within_quota = true;
  media_valid = false;
  sealing = off;
}

-- Three chunks of four bytes, the last of two; a chunk with a negative index is refused.
plan :
    (total_chunks 10 4 ≡ 3)
    × (expected_chunk_size 2 10 4 ≡ 2)
    × (missing_chunks 10 4 [] ≡ 0 ∷ 1 ∷ 2 ∷ [])
    × (next_expected 10 4 [] ≡ 0)
unfolding total_chunks expected_chunk_size missing_chunks next_expected lookup
plan = (refl, refl, refl, refl)

refused :
    (uploads_chunk toy_sha begun (record request { index = negsuc 0 })).1
    ≡ err Problem.index_out_of_bounds
unfolding uploads_chunk late_chunk after_checks check_chunk toy_sha fresh text_eq lower strip
refused = refl

repeated : uploads_chunk toy_sha filled request ≡ (filled, ok (Answer.dedup 6))
unfolding uploads_chunk late_chunk after_checks check_chunk store_chunk total_chunks
    expected_chunk_size toy_sha fresh text_eq lower strip lookup set sum_sizes write_at
repeated = refl

-- A completion that comes too early, and the chunk.
abbrev calls : List Call
calls = complete plain ∷ chunk request ∷ []

abbrev session : Session
session = run toy_sha begun calls

filled_received : session ≡ filled
unfolding run uploads_chunk late_chunk uploads_complete check_complete after_move after_checks
    check_chunk store_chunk total_chunks expected_chunk_size toy_sha fresh text_eq lower strip
    lookup set sum_sizes write_at is_sha
filled_received = refl

too_early : (file : Bytes) → check_complete toy_sha begun plain ≡ ok file → ⊥
unfolding check_complete fresh
too_early file e = cc

calls_intact : AreIntact toy_sha begun calls
unfolding AreIntact
calls_intact = ((λ file e. absurd (too_early file e)), (tt, tt))

session_going : session.upload.completed ≡ false
session_going = rw filled_received refl

filled_full : missing_chunks 6 262144 filled.upload.received ≡ []
unfolding missing_chunks total_chunks lookup
filled_full = refl

sum_well : is_sha (toy_sha movie) ≡ true
unfolding is_sha toy_sha
sum_well = refl

same_sum : lower (strip (toy_sha movie)) ≡ toy_sha movie
unfolding lower strip toy_sha
same_sum = refl

checked : check_complete toy_sha filled broken ≡ ok movie
unfolding check_complete toy_sha text_eq missing_chunks total_chunks lookup lower strip
checked = refl

broken_well : (is_empty (final_sha_of broken) || is_sha (final_sha_of broken)) ≡ true
unfolding is_sha toy_sha lower strip
broken_well = refl

abbrev completed : Session
completed = (uploads_complete toy_sha filled plain).0

completes : uploads_complete toy_sha filled plain ≡ (completed, ok tt)
unfolding uploads_complete toy_sha text_eq missing_chunks total_chunks lookup lower strip is_sha
completes = refl

session_completes : uploads_complete toy_sha session plain ≡ (completed, ok tt)
session_completes = rw filled_received completes

run-IsValid_example : (session.upload.completed ≡ true) ⊎ IsValid toy_sha session
run-IsValid_example = run-IsValid toy_sha 6 1000 true [] begun begun_by_init calls calls_intact

run-Whole_example :
    let u = session.upload in
    (file : Bytes) × Whole toy_sha session plain file
    × ((i : ℕ)
        → i < total_chunks u.total_bytes u.chunk_bytes
        → (c : Chunk) × (lookup i u.received ≡ some c)
          × (toy_sha (slice (i * u.chunk_bytes) c.size file) ≡ c.sha256))
    × Kept off completed file
    × (completed.upload.completed ≡ true)
    × (completed.upload.final_sha256 ≡ toy_sha file)
    × (completed.part_file ≡ none)
run-Whole_example =
    run-Whole toy_sha 6 1000 true [] begun begun_by_init calls calls_intact plain session_going tt
      completed session_completes

off_keyed : off ≢ misconfigured
off_keyed e = cc

no_expected : lower (strip []) ≡ []
unfolding lower strip
no_expected = refl

session_full :
    missing_chunks session.upload.total_bytes session.upload.chunk_bytes session.upload.received
    ≡ []
session_full = rw filled_received filled_full

completion_succeeds_example :
    (file : Bytes) × (session.part_file ≡ some file)
    × ((q : Completion)
        → q.within_quota ≡ true
        → q.media_valid ≡ true
        → q.sealing ≢ misconfigured
        → IsLawful q.sealing
        → is_sha (final_sha_of q) ≡ true
        → final_sha_of q ≡ toy_sha file
        → (lower (strip session.upload.expected_sha256) ≡ [])
          ⊎ (lower (strip session.upload.expected_sha256) ≡ toy_sha file)
        → (uploads_complete toy_sha session q).1 ≡ ok tt)
completion_succeeds_example =
    completion_succeeds toy_sha 6 1000 true [] begun begun_by_init calls calls_intact session_going
      session_full

retry_stuck_example :
    let t = (uploads_complete toy_sha filled broken).0 in
    ((t.part_file ≡ none) × (t.final_file ≡ none) × (t.upload ≡ filled.upload))
    × ((r : Request) (idx offset : ℕ)
        → check_chunk toy_sha (filled.upload) r ≡ ok (idx, offset)
        → is_same (lookup idx filled.upload.received) offset (sha_of r) r.body ≡ true
        → uploads_chunk toy_sha t r ≡ (t, ok (Answer.dedup filled.upload.received_bytes)))
    × ((again : Completion)
        → (is_empty (final_sha_of again) || is_sha (final_sha_of again)) ≡ true
        → again.within_quota ≡ true
        → (uploads_complete toy_sha t again).1 ≡ err Problem.missing_data)
retry_stuck_example =
    retry_stuck toy_sha filled (uploads_complete toy_sha filled broken).0 broken movie refl
      broken_well checked (inl refl) refl
