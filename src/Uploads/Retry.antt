-- ===== src/Uploads/Retry.antt =====
-- A completion of src/dubbing_pipeline/web/routes/uploads.py that fails after the part file was moved.
use dubbing_pipeline.Base.{
  ℕ, ◌≡◌, refl, sym, ap, ◌∙◌, ◌⊎◌, arith, true, false, ◌||◌, Text, none, is_empty, ok, err,
}
use dubbing_pipeline.Uploads.Part.{Bytes}
use dubbing_pipeline.Uploads.Plan.{lookup}
use dubbing_pipeline.Uploads.Session.{
  Problem, Session, Request, Answer, sha_of, is_sha, is_same, check_chunk, store_chunk,
  after_checks, late_chunk, uploads_chunk,
}
use dubbing_pipeline.Uploads.Complete.{
  misconfigured, Completion, final_sha_of, check_complete, dropped, after_move, uploads_complete,
}
use dubbing_pipeline.Uploads.Success.{proceeds}

module _ (sha256 : Bytes → Text) (s : Session) (going : s.upload.completed ≡ false) where
  failed_dropped :
      (q : Completion) (file : Bytes)
      → (is_empty (final_sha_of q) || is_sha (final_sha_of q)) ≡ true
      → check_complete sha256 s q ≡ ok file
      → (q.media_valid ≡ false) ⊎ (q.sealing ≡ misconfigured)
      → (uploads_complete sha256 s q).0 ≡ dropped s
  unfolding uploads_complete
  failed_dropped q file well checked failed =
      let passed =
        proceeds sha256 s q (is_empty (final_sha_of q) || is_sha (final_sha_of q))
          s.upload.completed (check_complete sha256 s q) file well going checked in
      ap (λ p. p.0) passed ∙ ends failed
    where
      ends :
          (q.media_valid ≡ false) ⊎ (q.sealing ≡ misconfigured)
          → (after_move sha256 s q (ok file)).0 ≡ dropped s
      ends failed = ground arith

  resent :
      (r : Request) (idx offset : ℕ)
      → check_chunk sha256 (s.upload) r ≡ ok (idx, offset)
      → is_same (lookup idx s.upload.received) offset (sha_of r) r.body ≡ true
      → uploads_chunk sha256 (dropped s) r ≡ (dropped s, ok (Answer.dedup s.upload.received_bytes))
  unfolding uploads_chunk late_chunk dropped after_checks store_chunk
  resent r idx offset checked same = ground arith

  completed_again :
      (q : Completion)
      → (is_empty (final_sha_of q) || is_sha (final_sha_of q)) ≡ true
      → q.within_quota ≡ true
      → (uploads_complete sha256 (dropped s) q).1 ≡ err Problem.missing_data
  unfolding uploads_complete dropped
  completed_again q well quota = ground arith

-- A completion that fails after the part file was moved, because ffprobe rejects the file or because
-- encryption is on without a key, deletes the file and keeps the record. From then on the session is
-- stuck: no part or final file is left, a chunk that was accepted is answered as a repetition and is not
-- written again, and completion is refused since the data are missing.
pub retry_stuck :
    (sha256 : Bytes → Text) (s t : Session) (q : Completion) (file : Bytes)
    → s.upload.completed ≡ false
    → (is_empty (final_sha_of q) || is_sha (final_sha_of q)) ≡ true
    → check_complete sha256 s q ≡ ok file
    → (q.media_valid ≡ false) ⊎ (q.sealing ≡ misconfigured)
    → (uploads_complete sha256 s q).0 ≡ t
    → ((t.part_file ≡ none) × (t.final_file ≡ none) × (t.upload ≡ s.upload))
      × ((r : Request) (idx offset : ℕ)
          → check_chunk sha256 (s.upload) r ≡ ok (idx, offset)
          → is_same (lookup idx s.upload.received) offset (sha_of r) r.body ≡ true
          → uploads_chunk sha256 t r ≡ (t, ok (Answer.dedup s.upload.received_bytes)))
      × ((again : Completion)
          → (is_empty (final_sha_of again) || is_sha (final_sha_of again)) ≡ true
          → again.within_quota ≡ true
          → (uploads_complete sha256 t again).1 ≡ err Problem.missing_data)
unfolding dropped
retry_stuck sha256 s t q file going well checked failed e =
    rw (sym e ∙ failed_dropped sha256 s going q file well checked failed)
      ((refl, refl, refl), resent sha256 s going, completed_again sha256 s going)
