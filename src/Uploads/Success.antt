-- ===== src/Uploads/Success.antt =====
-- When `uploads_complete` of src/dubbing_pipeline/web/routes/uploads.py succeeds.
use dubbing_pipeline.Base.{
  ℕ, ◌-◌, ◌*◌, ◌≤◌, ◌<◌, ◌≡◌, ◌≢◌, refl, sym, ap, ◌∙◌, ◌⊎◌, arith, Bool, true, false, ◌||◌, [],
  Text, length, if◌then◌else◌, some, is_empty, text_eq_complete, lower, strip, codes, ok, err,
}
use dubbing_pipeline.Crypto.Writing.{encrypt-IsContainer}
use dubbing_pipeline.Uploads.Part.{Bytes}
use dubbing_pipeline.Uploads.Plan.{
  total_chunks, total_chunks_lem, chunk_bounds, missing_chunks, missing_chunks-eq-nil,
}
use dubbing_pipeline.Uploads.Session.{Problem, Result, Session, is_sha, bytes_of}
use dubbing_pipeline.Uploads.Receive.{IsValid}
use dubbing_pipeline.Uploads.Complete.{
  Sealing, off, misconfigured, sealed_by, Completion, final_sha_of, check_complete, seal, keep_file,
  after_move, uploads_complete,
}
use dubbing_pipeline.Uploads.Finish.{IsLawful}

pub proceeds :
    (sha256 : Bytes → Text) (s : Session) (q : Completion) (b c : Bool) (r : Result Bytes)
    (file : Bytes)
    → b ≡ true
    → c ≡ false
    → r ≡ ok file
    → (if b
        then if c then (s, ok tt) else after_move sha256 s q r
        else (s, err Problem.invalid_final_sha))
      ≡ after_move sha256 s q (ok file)
proceeds sha256 s q true false r file h k e = ap (after_move sha256 s q) e
proceeds sha256 s q true true r file h k e = absurd (let k' : ◌≡◌ {A = Bool} true false = k in cc)
proceeds sha256 s q false c r file h k e = absurd (let h' : ◌≡◌ {A = Bool} false true = h in cc)

keep_file-ok :
    (s : Session) (file : Bytes) (sum : Text) (sealing : Sealing)
    → sealing ≢ misconfigured
    → IsLawful sealing
    → (keep_file s file sum sealing).1 ≡ ok tt
unfolding keep_file seal
keep_file-ok s file sum off keyed lawful = refl
keep_file-ok s file sum misconfigured keyed lawful = absurd (keyed refl)
keep_file-ok s file sum (sealed_by key nonce) keyed lawful =
    let (sealed, made, _) =
      encrypt-IsContainer key nonce (lawful.0) (lawful.1) file (codes "uploads") [] in
    rw made refl

moved-ok :
    (sha256 : Bytes → Text) (s : Session) (q : Completion) (file : Bytes)
    → q.media_valid ≡ true
    → q.sealing ≢ misconfigured
    → IsLawful q.sealing
    → (after_move sha256 s q (ok file)).1 ≡ ok tt
unfolding after_move
moved-ok sha256 s q file media keyed lawful =
    ground (arith, keep_file-ok s file (sha256 file) q.sealing keyed lawful)

module _ (sha256 : Bytes → Text) (s : Session) (valid : IsValid sha256 s) where
  -- With no chunk missing, the part file reaches to the end of the upload.
  pub part_reaches :
      0 < s.upload.total_bytes
      → missing_chunks s.upload.total_bytes s.upload.chunk_bytes s.upload.received ≡ []
      → s.upload.total_bytes ≤ length (bytes_of s.part_file)
  part_reaches pos none_missing =
      let total = s.upload.total_bytes in
      let chunk = s.upload.chunk_bytes in
      let n = total_chunks total chunk in
      let bounds = total_chunks_lem total chunk valid.chunked in
      let some_chunk : 0 < n = positive n chunk total pos (bounds.0) in
      let (c, found) =
        missing_chunks-eq-nil total chunk (n - 1) s.upload.received none_missing (omega arith) in
      let st = valid.kept (n - 1) c found in
      let last = (chunk_bounds (n - 1) total chunk valid.chunked (omega arith)).4 (omega arith) in
      let inside = st.3 in omega (arith, inside, st.1, st.2, last)
    where
      positive : (n chunk total : ℕ) → 0 < total → total ≤ n * chunk → 0 < n
      positive n chunk total h k = grind arith

module _ (sha256 : Bytes → Text) (s : Session) (q : Completion) (valid : IsValid sha256 s)
    (going : s.upload.completed ≡ false) where
  -- With no chunk missing, the part file has the length of the upload.
  part_file_full :
      0 < s.upload.total_bytes
      → missing_chunks s.upload.total_bytes s.upload.chunk_bytes s.upload.received ≡ []
      → (file : Bytes) → s.part_file ≡ some file
      → length file ≡ s.upload.total_bytes
  part_file_full pos none_missing file here =
      let reached : s.upload.total_bytes ≤ length file =
        rw here at (part_reaches sha256 s valid pos none_missing) in
      let within : length file ≤ s.upload.total_bytes = rw here at valid.within in
      omega (arith, reached, within)

  checks_pass :
      (file : Bytes)
      → 0 < s.upload.total_bytes
      → s.part_file ≡ some file
      → missing_chunks s.upload.total_bytes s.upload.chunk_bytes s.upload.received ≡ []
      → q.within_quota ≡ true
      → final_sha_of q ≡ sha256 file
      → (lower (strip s.upload.expected_sha256) ≡ [])
        ⊎ (lower (strip s.upload.expected_sha256) ≡ sha256 file)
      → check_complete sha256 s q ≡ ok file
  unfolding check_complete
  checks_pass file pos here none_missing quota sum expected =
      let full = part_file_full pos none_missing file here in
      let empty : is_empty
            (missing_chunks s.upload.total_bytes s.upload.chunk_bytes s.upload.received)
          ≡ true =
        rw none_missing refl in
      ground (
        arith,
        empty,
        text_eq_complete (sha256 file) (final_sha_of q) (sym sum),
        text_eq_complete (sha256 file) (lower (strip s.upload.expected_sha256)),
      )

  -- A session that is valid and has its part file is completed once no chunk is missing.
  pub complete_succeeds :
      (file : Bytes)
      → 0 < s.upload.total_bytes
      → s.part_file ≡ some file
      → missing_chunks s.upload.total_bytes s.upload.chunk_bytes s.upload.received ≡ []
      → q.within_quota ≡ true
      → q.media_valid ≡ true
      → q.sealing ≢ misconfigured
      → IsLawful q.sealing
      → is_sha (final_sha_of q) ≡ true
      → final_sha_of q ≡ sha256 file
      → (lower (strip s.upload.expected_sha256) ≡ [])
        ⊎ (lower (strip s.upload.expected_sha256) ≡ sha256 file)
      → (uploads_complete sha256 s q).1 ≡ ok tt
  unfolding uploads_complete
  complete_succeeds file pos here none_missing quota media keyed lawful well sum expected =
      let passed =
        proceeds sha256 s q (is_empty (final_sha_of q) || is_sha (final_sha_of q))
          s.upload.completed (check_complete sha256 s q) file
          (or_true (is_empty (final_sha_of q)) (is_sha (final_sha_of q)) well) going
          (checks_pass file pos here none_missing quota sum expected) in
      ap (λ p. p.1) passed ∙ moved-ok sha256 s q file media keyed lawful
    where
      or_true : (a b : Bool) → b ≡ true → (a || b) ≡ true
      or_true true b h = refl
      or_true false b h = h
