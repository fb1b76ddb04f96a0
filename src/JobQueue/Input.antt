-- ===== src/JobQueue/Input.antt =====
-- How a run of src/dubbing_pipeline/jobs/queue_impl.py reads the video of its job.
use dubbing_pipeline.Base.{
  ℕ, ◌<◌, ◌≡◌, ◌≢◌, refl, sym, arith, List, [], ◌∷◌, none, some, true, if◌then◌else◌, Text, codes,
  length, strip, Outcome, ok, err,
}
use dubbing_pipeline.Crypto.Words
use dubbing_pipeline.Crypto.Words.{Bytes}
use dubbing_pipeline.Crypto.Container.{
  Aead, IsAead, is_encrypted, aad_base, aad_at, encrypt_bytes, decrypt_bytes,
}
use dubbing_pipeline.Crypto.Format.{IsContainer-is_encrypted}
use dubbing_pipeline.Crypto.Writing.{encrypt-IsContainer}
use dubbing_pipeline.Crypto.Context.{aad-ne_of_length, other_context_refused}
use dubbing_pipeline.Jobs.Models.{running, failed}
use dubbing_pipeline.JobQueue.Workers
use dubbing_pipeline.JobQueue.Workers.{World, broke}
use dubbing_pipeline.JobQueue.Calls.{perform}
use dubbing_pipeline.JobQueue.Resumed.{At, end-At}

pub data InputFault : Type 0 where
  no_key : Text → InputFault
  not_decrypted : Words.Error → InputFault

unfoldable pub decrypted : Words.Result Bytes → Outcome InputFault Bytes
decrypted (ok video) = ok video
decrypted (err e) = err (not_decrypted e)

-- The key, or the text of the CryptoConfigError.
abbrev pub Key : Type 0
Key = Outcome Text Aead

-- decrypt_file(video_path, decrypted_video, kind="uploads", job_id=job_id)
unfoldable pub decrypt_input : Key → Bytes → Text → Outcome InputFault Bytes
unfolding decrypted
decrypt_input (err why) video job_id = err (no_key why)
decrypt_input (ok key) video job_id = decrypted (decrypt_bytes key video (codes "uploads") job_id)

-- The video as the stages read it.
unfoldable pub input_video : Key → Bytes → Text → Outcome InputFault Bytes
unfolding decrypt_input
input_video key video job_id =
    if is_encrypted (some video) then decrypt_input key video job_id else ok video

-- the error text, for a file that is not decrypted without the detail of the exception
abbrev pub message_of : InputFault → Text
message_of (no_key why) = why
message_of (not_decrypted e) = codes "Failed to decrypt input video"

-- A fault ends the run; else the stages follow.
unfoldable pub after_input : World → Text → Outcome InputFault Bytes → World
after_input w id (ok video) = w
after_input w id (err fault) = Workers.end_run w id (broke (message_of fault))

strip_nil : length (strip []) ≡ 0
unfolding strip
strip_nil = refl

-- `uploads_complete` encrypts a video for no job, and the run decrypts it for its own job. So a run on an
-- encrypted upload that is not empty fails, for any job whose id is not blank, and any cipher that
-- refuses a ciphertext where the associated data are others than those that it was made with.
pub sealed_upload_fails :
    (key : Aead) (nonce : ℕ → Bytes)
    → IsAead key
    → ((i : ℕ) → length (nonce i) ≡ 12)
    → (id : Text) (movie sealed : Bytes) → 0 < length movie
    → 0 < length (strip id)
    → ((n pt : Bytes)
        → aad_at (aad_base (codes "uploads") []) 0 ≢ aad_at (aad_base (codes "uploads") id) 0
        → key.decrypt n
            (key.encrypt n pt (aad_at (aad_base (codes "uploads") []) 0))
            (aad_at (aad_base (codes "uploads") id) 0)
          ≡ none)
    → encrypt_bytes key nonce movie (codes "uploads") [] ≡ ok sealed
    → (workers : ℕ) (waiting active : List Text) (w : World)
    → At id workers running waiting (id ∷ active) w
    → (input_video (ok key) sealed id ≡ err (not_decrypted Words.Error.invalid_tag))
      × At id workers failed waiting active (after_input w id (input_video (ok key) sealed id))
unfolding input_video after_input perform
sealed_upload_fails key nonce lawful nonce_12 id movie sealed some_movie some_id refuses made
      workers waiting active w a =
    let others = aad-ne_of_length (codes "uploads") [] id (differ some_id) in
    let refused : decrypt_bytes key sealed (codes "uploads") id ≡ err Words.Error.invalid_tag =
      rw made at (
        other_context_refused key nonce lawful nonce_12 movie (codes "uploads") [] (codes "uploads")
          id some_movie (λ n pt. refuses n pt others)) in
    let (file, written, container) =
      encrypt-IsContainer key nonce lawful nonce_12 movie (codes "uploads") [] in
    let known : is_encrypted (some sealed) ≡ true =
      recognised file (sym written)
        (IsContainer-is_encrypted key (codes "uploads") [] file movie container) in
    rw (known, refused)
      (
        refl,
        end-At id none workers running waiting active w
            (broke (codes "Failed to decrypt input video")) a,
      )
  where
    differ : 0 < length (strip id) → length (strip []) ≢ length (strip id)
    differ h e = omega (arith, strip_nil)

    recognised :
        (file : Bytes)
        → ok file ≡ encrypt_bytes key nonce movie (codes "uploads") []
        → is_encrypted (some file) ≡ true
        → is_encrypted (some sealed) ≡ true
    recognised file e h = let same : file ≡ sealed = cc in rw (← same) h
