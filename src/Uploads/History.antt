-- ===== src/Uploads/History.antt =====
-- Sessions of src/dubbing_pipeline/web/routes/uploads.py after any calls of `uploads_chunk` and
-- `uploads_complete`.
use mathlib.Core.Bool.{true≢false}
use dubbing_pipeline.Base.{
  ℕ, ◌*◌, ◌≤◌, ◌<◌, ◌≡◌, ◌≢◌, refl, sym, ◌∙◌, ◌⊎◌, inl, inr, arith, Bool, true, false, ◌||◌, List,
  [], ◌∷◌, Text, length, if◌then◌else◌, Option, none, some, is_empty, lower, strip, codes, ok, err,
  Bool-cases, Outcome-cases,
}
use dubbing_pipeline.Crypto.Words
use dubbing_pipeline.Crypto.Container.{encrypt_bytes}
use dubbing_pipeline.Uploads.Part.{Bytes, slice}
use dubbing_pipeline.Uploads.Plan.{Chunk, lookup, total_chunks, missing_chunks}
use dubbing_pipeline.Uploads.Session.{
  Problem, Result, Session, Request, is_sha, bytes_of, init, after_checks, late_chunk,
  uploads_chunk, check_chunk, store_chunk, is_same, sha_of,
}
use dubbing_pipeline.Uploads.Receive.{
  IsValid, late_chunk-IsValid, uploads_chunk-IsValid, init-IsValid,
}
use dubbing_pipeline.Uploads.Complete.{
  Sealing, off, misconfigured, sealed_by, Completion, final_sha_of, check_complete, seal, keep_file,
  after_move, uploads_complete,
}
use dubbing_pipeline.Uploads.Finish.{Whole, Kept, IsLawful, uploads_complete_lem}
use dubbing_pipeline.Uploads.Success.{part_reaches, complete_succeeds}

-- A chunk is written right after the test for a completed upload, or late, when other calls came between.
pub data Call : Type 0 where
  chunk : Request → Call
  late : Request → Call
  complete : Completion → Call

module _ (sha256 : Bytes → Text) where
  unfoldable pub perform : Session → Call → Session
  perform s (chunk r) = (uploads_chunk sha256 s r).0
  perform s (late r) = (late_chunk sha256 s r).0
  perform s (complete q) = (uploads_complete sha256 s q).0

  unfoldable pub run : Session → List Call → Session
  unfolding perform
  run s [] = s
  run s (c ∷ cs) = run (perform s c) cs

  -- A completion that passes its checks succeeds: ffprobe and the encryption do not fail after the move.
  abbrev pub IsIntact : Session → Call → Type 0
  IsIntact s (chunk r) = Unit
  IsIntact s (late r) = Unit
  IsIntact s (complete q) =
      (file : Bytes)
      → check_complete sha256 s q ≡ ok file
      → (after_move sha256 s q (ok file)).1 ≡ ok tt

  unfoldable pub AreIntact : Session → List Call → Type 0
  AreIntact s [] = Unit
  AreIntact s (c ∷ cs) = IsIntact s c × AreIntact (perform s c) cs

  -- Completed, or valid.
  abbrev pub IsSound : Session → Type 0
  IsSound s = (s.upload.completed ≡ true) ⊎ IsValid sha256 s

  seal-completed :
      (s : Session) (file : Bytes) (sum : Text) (r : Words.Result Bytes)
      → (seal s file sum r).1 ≡ ok tt
      → (seal s file sum r).0.upload.completed ≡ true
  unfolding seal
  seal-completed s file sum (ok sealed) h = refl
  seal-completed s file sum (err e) h = absurd cc

  keep_file-completed :
      (s : Session) (file : Bytes) (sum : Text) (sealing : Sealing)
      → (keep_file s file sum sealing).1 ≡ ok tt
      → (keep_file s file sum sealing).0.upload.completed ≡ true
  unfolding keep_file
  keep_file-completed s file sum off h = refl
  keep_file-completed s file sum misconfigured h = absurd cc
  keep_file-completed s file sum (sealed_by key nonce) h =
      seal-completed s file sum (encrypt_bytes key nonce file (codes "uploads") []) h

  after_move-completed :
      (s : Session) (q : Completion) (file : Bytes)
      → (after_move sha256 s q (ok file)).1 ≡ ok tt
      → (after_move sha256 s q (ok file)).0.upload.completed ≡ true
  unfolding after_move
  after_move-completed s q file h = elim (Bool-cases q.media_valid) [
    | inl e ↦ rw e (keep_file-completed s file (sha256 file) q.sealing (rw e at h))
    | inr e ↦
        absurd (
          let h' : ◌≡◌ {A = Result (Unit {0})} (err Problem.invalid_media) (ok tt) = rw e at h in
          cc)
  ]

  after_move-IsSound :
      (s : Session) (q : Completion) (r : Result Bytes)
      → check_complete sha256 s q ≡ r
      → IsIntact s (complete q)
      → IsSound s
      → IsSound (after_move sha256 s q r).0
  unfolding after_move
  after_move-IsSound s q (err p) e intact sound = sound
  after_move-IsSound s q (ok file) e intact sound =
      inl (after_move-completed s q file (intact file e))

  pick-IsSound :
      {A : Type 0} (b : Bool) (x y : Session × A)
      → IsSound x.0
      → IsSound y.0
      → IsSound (if b then x else y).0
  pick-IsSound true x y v w = v
  pick-IsSound false x y v w = w

  closed :
      (s : Session) (r : Request)
      → s.upload.completed ≡ true
      → (uploads_chunk sha256 s r).0.upload.completed ≡ true
  unfolding uploads_chunk
  closed s r over = rw over refl

  closed_late :
      (s : Session) (r : Request)
      → s.upload.completed ≡ true
      → (late_chunk sha256 s r).0.upload.completed ≡ true
  unfolding late_chunk after_checks store_chunk
  closed_late s r over = elim (Outcome-cases (check_chunk sha256 (s.upload) r)) [
    | inl (place, e) ↦
        rw e
          (elim (Bool-cases
            (is_same (lookup place.0 s.upload.received) place.1 (sha_of r) r.body)) [
              | inl same ↦ rw same over
              | inr new ↦ rw new over
            ])
    | inr (p, e) ↦ rw e over
  ]

  perform-IsSound : (s : Session) (c : Call) → IsIntact s c → IsSound s → IsSound (perform s c)
  unfolding perform uploads_complete
  perform-IsSound s (chunk r) intact (inl over) = inl (closed s r over)
  perform-IsSound s (chunk r) intact (inr valid) = inr (uploads_chunk-IsValid sha256 s r valid)
  perform-IsSound s (late r) intact (inl over) = inl (closed_late s r over)
  perform-IsSound s (late r) intact (inr valid) = inr (late_chunk-IsValid sha256 s r valid)
  perform-IsSound s (complete q) intact sound =
      pick-IsSound (is_empty (final_sha_of q) || is_sha (final_sha_of q)) _ _
        (pick-IsSound s.upload.completed _ _ sound
          (after_move-IsSound s q (check_complete sha256 s q) refl intact sound))
        sound

  steps-IsSound : (s : Session) (cs : List Call) → AreIntact s cs → IsSound s → IsSound (run s cs)
  unfolding run AreIntact
  steps-IsSound s [] intact sound = sound
  steps-IsSound s (c ∷ cs) intact sound =
      steps-IsSound (perform s c) cs (intact.1) (perform-IsSound s c (intact.0) sound)

  module _ (total setting : ℕ) (within_quota : Bool) (expected : Text) (s : Session)
      (begun : init total within_quota setting expected ≡ ok s) (calls : List Call)
      (intact : AreIntact s calls) where
    -- From the beginning of a session on, whatever chunks come, also overtaken by other calls, and whatever completions are asked for, in
    -- whatever order, as long as no completion fails after its checks have passed: the session is
    -- completed, or every chunk that counts as received stands in the part file at its place, in its size
    -- and with its checksum, the count of the received bytes is the sum of the chunks' sizes, and the part
    -- file is no longer than the upload.
    pub run-IsValid : ((run s calls).upload.completed ≡ true) ⊎ IsValid sha256 (run s calls)
    run-IsValid =
        steps-IsSound s calls intact
          (inr (init-IsValid sha256 total setting within_quota expected s begun))

    run-IsValid_going : (run s calls).upload.completed ≡ false → IsValid sha256 (run s calls)
    run-IsValid_going going = elim run-IsValid [
      | inl over ↦ absurd (true≢false (sym over ∙ going))
      | inr valid ↦ valid
    ]

    -- An upload that is completed is whole. After any chunks and refused completions, of which none failed
    -- after its checks had passed, a completion that succeeds finds every byte received, each chunk with the
    -- checksum that came with it, and the checksum of the file, which is noted, is the one asked for; the
    -- file is kept, or a container that is decrypted to it and no plain file beside it, by a cipher that
    -- meets its laws.
    pub run-Whole :
        (q : Completion)
        → (run s calls).upload.completed ≡ false
        → IsLawful q.sealing
        → (t : Session) → uploads_complete sha256 (run s calls) q ≡ (t, ok tt)
        → let u = (run s calls).upload in
          (file : Bytes) × Whole sha256 (run s calls) q file
          × ((i : ℕ)
              → i < total_chunks u.total_bytes u.chunk_bytes
              → (c : Chunk) × (lookup i u.received ≡ some c)
                × (sha256 (slice (i * u.chunk_bytes) c.size file) ≡ c.sha256))
          × Kept q.sealing t file
          × (t.upload.completed ≡ true)
          × (t.upload.final_sha256 ≡ sha256 file)
          × (t.part_file ≡ none)
    run-Whole q going lawful t done =
        uploads_complete_lem sha256 (run s calls) q (run-IsValid_going going) going lawful t done

    present : (o : Option Bytes) → 0 < length (bytes_of o) → (file : Bytes) × (o ≡ some file)
    present none h = absurd (omega arith)
    present (some file) h = (file, refl)

    -- After any chunks and refused completions, of which none failed after its checks had passed: once no
    -- chunk is missing, the part file is there, and completion succeeds for any call whose checksum is that
    -- of the file, as is the one that the session was begun with, if any, where the quota allows the
    -- upload, ffprobe accepts it, and encryption is off or has a key with a cipher that meets its laws.
    pub completion_succeeds :
        (run s calls).upload.completed ≡ false
        → missing_chunks
            (run s calls).upload.total_bytes
            (run s calls).upload.chunk_bytes
            (run s calls).upload.received
          ≡ []
        → (file : Bytes) × ((run s calls).part_file ≡ some file)
          × ((q : Completion)
              → q.within_quota ≡ true
              → q.media_valid ≡ true
              → q.sealing ≢ misconfigured
              → IsLawful q.sealing
              → is_sha (final_sha_of q) ≡ true
              → final_sha_of q ≡ sha256 file
              → (lower (strip (run s calls).upload.expected_sha256) ≡ [])
                ⊎ (lower (strip (run s calls).upload.expected_sha256) ≡ sha256 file)
              → (uploads_complete sha256 (run s calls) q).1 ≡ ok tt)
    completion_succeeds going none_missing =
        let valid = run-IsValid_going going in
        let (file, here) =
          present (run s calls).part_file (omega (arith, reached valid, valid.sized)) in
        (
          file,
          here,
          λ q quota media keyed lawful well sum expected.
              complete_succeeds sha256 (run s calls) q valid going file valid.sized here
                none_missing quota media keyed lawful well sum expected,
        )
      where
        reached :
            IsValid sha256 (run s calls)
            → (run s calls).upload.total_bytes ≤ length (bytes_of (run s calls).part_file)
        reached valid = part_reaches sha256 (run s calls) valid valid.sized none_missing
