-- ===== src/Uploads/Finish.antt =====
-- What `uploads_complete` of src/dubbing_pipeline/web/routes/uploads.py keeps of an upload, and what it
-- leaves after a refusal.
use mathlib.Core.Bool.{true≢false}
use dubbing_pipeline.Base.{
  ℕ, ◌*◌, ◌<◌, ◌≡◌, refl, sym, ap, ◌∙◌, ◌⊎◌, inl, inr, arith, Bool, true, false, List, [], ◌∷◌,
  Text, length, if◌then◌else◌, none, some, is_empty, text_eq_sound, lower, strip, codes, ok, err,
}
use dubbing_pipeline.Crypto.Container.{IsAead, decrypt_bytes}
use dubbing_pipeline.Crypto.Reading.{decrypt_iff}
use dubbing_pipeline.Crypto.Writing.{encrypt-IsContainer}
use dubbing_pipeline.Uploads.Part.{Bytes, slice}
use dubbing_pipeline.Uploads.Plan.{
  Chunk, lookup, total_chunks, missing_chunks, missing_chunks-eq-nil,
}
use dubbing_pipeline.Uploads.Session.{Problem, Result, Session}
use dubbing_pipeline.Uploads.Receive.{IsValid}
use dubbing_pipeline.Uploads.Complete.{
  Sealing, off, misconfigured, sealed_by, Completion, final_sha_of, check_complete, seal, keep_file,
  after_move, uploads_complete,
}

-- The upload is whole, and its checksum is the one that the call gave, and the one that the session was
-- begun with, where there is one.
abbrev pub Whole : (Bytes → Text) → Session → Completion → Bytes → Type 0
Whole sha256 s q file =
    (s.part_file ≡ some file)
    × (length file ≡ s.upload.total_bytes)
    × ((is_empty (final_sha_of q) ≡ true) ⊎ (sha256 file ≡ final_sha_of q))
    × ((is_empty (lower (strip s.upload.expected_sha256)) ≡ true)
        ⊎ (sha256 file ≡ lower (strip s.upload.expected_sha256)))
    × (missing_chunks s.upload.total_bytes s.upload.chunk_bytes s.upload.received ≡ [])

is_empty-eq : (l : List ℕ) → is_empty l ≡ true → l ≡ []
is_empty-eq [] h = refl
is_empty-eq (i ∷ l) h = absurd (cc)

check_complete-Whole :
    (sha256 : Bytes → Text) (s : Session) (q : Completion) (file : Bytes)
    → check_complete sha256 s q ≡ ok file
    → Whole sha256 s q file
unfolding check_complete
check_complete-Whole sha256 s q file e = ground (
  arith,
  is_empty-eq (missing_chunks s.upload.total_bytes s.upload.chunk_bytes s.upload.received),
  text_eq_sound (sha256 file) (final_sha_of q),
  text_eq_sound (sha256 file) (lower (strip s.upload.expected_sha256)),
)

-- Where the bytes of a completed upload are: in the final file, or else in a container that is
-- decrypted to them.
abbrev pub Kept : Sealing → Session → Bytes → Type 0
Kept off t file = t.final_file ≡ some file
Kept misconfigured t file = ⊥
Kept (sealed_by key nonce) t file =
    (t.final_file ≡ none)
    × ((sealed : Bytes) × (t.sealed_file ≡ some sealed)
        × (decrypt_bytes key sealed (codes "uploads") [] ≡ ok file))

-- What the cipher has to meet, where one is used.
abbrev pub IsLawful : Sealing → Type 0
IsLawful off = Unit
IsLawful misconfigured = Unit
IsLawful (sealed_by key nonce) = IsAead key × ((i : ℕ) → length (nonce i) ≡ 12)

sealed-Kept :
    (s t : Session) (file sealed : Bytes) (sum : Text)
    → seal s file sum (ok sealed) ≡ (t, ok tt)
    → (t.final_file ≡ none)
      × (t.sealed_file ≡ some sealed)
      × (t.upload.completed ≡ true)
      × (t.upload.final_sha256 ≡ sum)
      × (t.part_file ≡ none)
unfolding seal
sealed-Kept s t file sealed sum e = ground arith

keep_file-Kept :
    (s t : Session) (file : Bytes) (sum : Text) (sealing : Sealing)
    → IsLawful sealing
    → keep_file s file sum sealing ≡ (t, ok tt)
    → Kept sealing t file
      × (t.upload.completed ≡ true)
      × (t.upload.final_sha256 ≡ sum)
      × (t.part_file ≡ none)
unfolding keep_file
keep_file-Kept s t file sum off lawful e = ground arith
keep_file-Kept s t file sum misconfigured lawful e = ground arith
keep_file-Kept s t file sum (sealed_by key nonce) lawful e =
    let (sealed, made, container) =
      encrypt-IsContainer key nonce (lawful.0) (lawful.1) file (codes "uploads") [] in
    let (final, held, done, summed, gone) = sealed-Kept s t file sealed sum (rw made at e) in
    (
      (final, (sealed, held, (decrypt_iff key (codes "uploads") [] sealed file).1 container)),
      done,
      summed,
      gone,
    )

-- What an answer of `uploads_complete` comes from: a refusal that changes nothing, or the move.
abbrev Source :
    (Bytes → Text) → Session → Completion → Result Bytes → Session → Result (Unit {0}) → Type 0
Source sha256 s q r t a =
    ((t ≡ s) × ((p : Problem) × (a ≡ err p)))
    ⊎ ((file : Bytes) × (r ≡ ok file) × (after_move sha256 s q (ok file) ≡ (t, a)))

answered :
    (sha256 : Bytes → Text) (s t : Session) (q : Completion) (a : Result (Unit {0})) (b c : Bool)
    (r : Result Bytes)
    → c ≡ false
    → (if b
        then if c then (s, ok tt) else after_move sha256 s q r
        else (s, err Problem.invalid_final_sha))
      ≡ (t, a)
    → Source sha256 s q r t a
unfolding after_move
answered sha256 s t q a false c r h e =
    inl (ap (λ p. p.0) (sym e), (Problem.invalid_final_sha, ap (λ p. p.1) (sym e)))
answered sha256 s t q a true true r h e = absurd (true≢false h)
answered sha256 s t q a true false (err p) h e =
    inl (ap (λ p. p.0) (sym e), (p, ap (λ p. p.1) (sym e)))
answered sha256 s t q a true false (ok file) h e = inr (file, refl, e)

moved :
    (sha256 : Bytes → Text) (s t : Session) (q : Completion) (file : Bytes)
    → after_move sha256 s q (ok file) ≡ (t, ok tt)
    → keep_file s file (sha256 file) q.sealing ≡ (t, ok tt)
unfolding after_move
moved sha256 s t q file e = ground arith

module _ (sha256 : Bytes → Text) (s : Session) (q : Completion) (valid : IsValid sha256 s)
    (going : s.upload.completed ≡ false) where
  completed_by :
      (t : Session) (a : Result (Unit {0}))
      → uploads_complete sha256 s q ≡ (t, a)
      → Source sha256 s q (check_complete sha256 s q) t a
  unfolding uploads_complete
  completed_by t a e = answered sha256 s t q a _ s.upload.completed _ going e

  -- What a completion keeps of a valid session.
  pub uploads_complete_lem :
      IsLawful q.sealing
      → (t : Session) → uploads_complete sha256 s q ≡ (t, ok tt)
      → (file : Bytes) × Whole sha256 s q file
        × ((i : ℕ)
            → i < total_chunks s.upload.total_bytes s.upload.chunk_bytes
            → (c : Chunk) × (lookup i s.upload.received ≡ some c)
              × (sha256 (slice (i * s.upload.chunk_bytes) c.size file) ≡ c.sha256))
        × Kept q.sealing t file
        × (t.upload.completed ≡ true)
        × (t.upload.final_sha256 ≡ sha256 file)
        × (t.part_file ≡ none)
  uploads_complete_lem lawful t e = elim (completed_by t (ok tt) e) [
    | inl (_, (p, wrong)) ↦ absurd (no_error p wrong)
    | inr (file, checked, after) ↦
        let whole = check_complete-Whole sha256 s q file checked in
        let (kept, done, summed, gone) =
          keep_file-Kept s t file (sha256 file) q.sealing lawful (moved sha256 s t q file after) in
        (
          file,
          whole,
          (λ i below. received_at file i (whole.0) (whole.4) below),
          kept,
          done,
          summed,
          gone,
        )
  ]
    where
      no_error : (p : Problem) → ◌≡◌ {A = Result (Unit {0})} (ok tt) (err p) → ⊥
      no_error p e = cc

      received_at :
          (file : Bytes) (i : ℕ)
          → s.part_file ≡ some file
          → missing_chunks s.upload.total_bytes s.upload.chunk_bytes s.upload.received ≡ []
          → i < total_chunks s.upload.total_bytes s.upload.chunk_bytes
          → (c : Chunk) × (lookup i s.upload.received ≡ some c)
            × (sha256 (slice (i * s.upload.chunk_bytes) c.size file) ≡ c.sha256)
      received_at file i here none_missing below =
          let (c, found) =
            missing_chunks-eq-nil s.upload.total_bytes s.upload.chunk_bytes i s.upload.received
              none_missing below in
          let st = valid.kept i c found in
          (c, found, ap (λ (o : ℕ). sha256 (slice o c.size file)) (sym st.1) ∙ (rw here at st.4))
