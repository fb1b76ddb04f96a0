-- ===== src/Crypto/Files.antt =====
-- What a call of `encrypt_file` or `decrypt_file` of src/dubbing_pipeline/security/crypto.py leaves in
-- the output file.
use dubbing_pipeline.Base.{
  ◌≡◌, refl, ◌⊎◌, inl, inr, ℕ, Option, none, some, length, ok, err, Outcome-cases,
}
use dubbing_pipeline.Crypto.Words.{Bytes, Error}
use dubbing_pipeline.Crypto.Container.{
  Aead, IsAead, decrypt_bytes, encrypt_file, decrypt_file, replaced,
}
use dubbing_pipeline.Crypto.Format.{IsContainer}
use dubbing_pipeline.Crypto.Reading.{decrypt_iff}
use dubbing_pipeline.Crypto.Writing.{encrypt-IsContainer}

-- The text of a container, written over the output; or an error, for an input that is no container,
-- and the output as it was.
abbrev pub Decrypted :
    Aead → Option Bytes → Option Bytes → Bytes → Bytes → Option Bytes × Option Error → Type 0
Decrypted key in_file out_file kind job_id after =
    ((file : Bytes) × (text : Bytes) × (in_file ≡ some file)
      × IsContainer key kind job_id file text
      × (after ≡ (some text, none)))
    ⊎ ((e : Error) × (after ≡ (out_file, some e))
        × ((file text : Bytes) → in_file ≡ some file → ¬ IsContainer key kind job_id file text))

-- A call of `decrypt_file` has one of two outcomes. Either the input is a container for this kind of
-- data and this job, its text replaces the output and nothing is raised; or the input is missing or
-- is no such container, an error is raised, and the output is left as it was, with no part of a text.
pub decrypt_file_lem :
    (key : Aead) (in_file out_file : Option Bytes) (kind job_id : Bytes)
    → Decrypted key in_file out_file kind job_id (decrypt_file key in_file out_file kind job_id)
unfolding decrypt_file replaced
decrypt_file_lem key none out_file kind job_id =
    inr (Error.file_not_found, refl, λ file text e. let q : none ≡ some file = e in cc)
decrypt_file_lem key (some file) out_file kind job_id =
    elim (Outcome-cases (decrypt_bytes key file kind job_id)) [
      | inl (text, e) ↦
          inl (file, text, refl, (decrypt_iff key kind job_id file text).0 e, rw e refl)
      | inr (x, e) ↦ inr (
        x,
        rw e refl,
        λ other text same c.
            two_results file other text x same e ((decrypt_iff key kind job_id other text).1 c),
      )
    ]
  where
    two_results :
        (file other text : Bytes) (x : Error)
        → some file ≡ some other
        → decrypt_bytes key file kind job_id ≡ err x
        → decrypt_bytes key other kind job_id ≡ ok text
        → ⊥
    two_results file other text x same e e' = cc

-- The output of `encrypt_file`, given to `decrypt_file` for the same kind of data and the same job, is
-- decrypted to the input, whatever stood in the output files before, and neither call raises an error.
pub decrypt_file-encrypt_file :
    (key : Aead) (nonce : ℕ → Bytes)
    → IsAead key
    → ((i : ℕ) → length (nonce i) ≡ 12)
    → (input : Bytes) (old_file old_out : Option Bytes) (kind job_id : Bytes)
    → let (file, raised) = encrypt_file key nonce (some input) old_file kind job_id in
      (raised ≡ none) × (decrypt_file key file old_out kind job_id ≡ (some input, none))
unfolding encrypt_file decrypt_file replaced
decrypt_file-encrypt_file key nonce lawful nonce_12 input old_file old_out kind job_id =
    let (file, made, container) = encrypt-IsContainer key nonce lawful nonce_12 input kind job_id in
    rw (made, (decrypt_iff key kind job_id file input).1 container) (refl, refl)
