-- ===== src/Crypto/Format.antt =====
-- The container format of src/dubbing_pipeline/security/crypto.py as a relation between a file and
-- its text, independent of the loops that write and read it, and what these make of it.
use dubbing_pipeline.Base.{
  ℕ, zero, suc, ◌+◌, ◌<◌, ◌≡◌, refl, ap, ◌∙◌, inl, inr, arith, true, [], ◌∷◌, ◌++◌, length, some,
  Bool-cases, text_eq, text_eq_sound, take-append_at, drop-append_at, ==-refl, lt→ltb,
  is_empty-eq_false, length-append, ok, ◌>>=◌,
}
use dubbing_pipeline.Crypto.Words.{Bytes, unpack_u32}
use dubbing_pipeline.Crypto.Container.{
  Aead, magic_new, magic_old, format_version_chunked, is_magic, is_encrypted, aad_base, aad_at,
  opened, version, decrypt_chunks, decrypt_bytes,
}

-- The chunks from the one numbered `idx` on: nonce, length of the ciphertext, ciphertext, each bound to
-- its number by the associated data.
pub data Chunks (key : Aead) (base : Bytes) : ℕ → Bytes → Bytes → Type 0 where
  end_of_file : (idx : ℕ) → Chunks key base idx [] []
  chunk :
      (idx : ℕ) (nonce ln ct pt fin out file text : Bytes)
      → length nonce ≡ 12
      → length ln ≡ 4
      → unpack_u32 ln ≡ length ct
      → 0 < length ct
      → key.decrypt nonce ct (aad_at base idx) ≡ some pt
      → Chunks key base (suc idx) fin out
      → file ≡ nonce ++ (ln ++ (ct ++ fin))
      → text ≡ pt ++ out
      → Chunks key base idx file text

-- A whole container: one of the two magics, the version, four bytes that are not read, the chunks.
pub record IsContainer (key : Aead) (kind job_id file text : Bytes) : Type 0 where
  pub magic : Bytes
  pub size : Bytes
  pub body : Bytes
  pub known : is_magic magic ≡ true
  pub sized : length size ≡ 4
  pub laid_out : file ≡ magic ++ (format_version_chunked ∷ (size ++ body))
  pub chunks : Chunks key (aad_base kind job_id) 0 body text

module _ (key : Aead) (base : Bytes) where
  -- one round of the reader at a chunk that is laid out well
  pub decrypt_chunk :
      (fuel idx : ℕ) (nonce ln ct fin : Bytes)
      → length nonce ≡ 12
      → length ln ≡ 4
      → unpack_u32 ln ≡ length ct
      → 0 < length ct
      → decrypt_chunks (suc fuel) key base idx (nonce ++ (ln ++ (ct ++ fin))) ≡ (
          opened (key.decrypt nonce ct (aad_at base idx)) >>= λ pt.
          decrypt_chunks fuel key base (suc idx) fin >>= λ rest. ok (pt ++ rest))
  unfolding decrypt_chunks
  decrypt_chunk fuel idx nonce ln ct fin n12 l4 u pos =
      rw
        (
          take-append_at 12 nonce (ln ++ (ct ++ fin)) n12,
          drop-append_at 12 nonce (ln ++ (ct ++ fin)) n12,
          take-append_at 4 ln (ct ++ fin) l4,
          drop-append_at 4 ln (ct ++ fin) l4,
          u,
          take-append_at (length ct) ct fin refl,
          drop-append_at (length ct) ct fin refl,
          is_empty-eq_false nonce (omega arith),
          n12,
          l4,
          lt→ltb 0 (length ct) pos,
          ==-refl (length ct),
        )
        refl

  decrypt_end : (fuel idx : ℕ) → decrypt_chunks (suc fuel) key base idx [] ≡ ok []
  unfolding decrypt_chunks
  decrypt_end fuel idx = refl

  length_chunk :
      (nonce ln ct fin : Bytes)
      → length nonce ≡ 12
      → length ln ≡ 4
      → length (nonce ++ (ln ++ (ct ++ fin))) ≡ 16 + (length ct + length fin)
  length_chunk nonce ln ct fin n12 l4 = omega (
    arith,
    length-append nonce (ln ++ (ct ++ fin)),
    length-append ln (ct ++ fin),
    length-append ct fin,
  )

  -- The reader accepts the chunks, given a round for each and one more.
  pub Chunks→decrypt :
      (fuel idx : ℕ) (file text : Bytes)
      → Chunks key base idx file text
      → length file < fuel
      → decrypt_chunks fuel key base idx file ≡ ok text
  unfolding opened
  Chunks→decrypt zero idx file text c h = absurd (omega arith)
  Chunks→decrypt (suc fuel) idx file text (end_of_file _) h = decrypt_end fuel idx
  Chunks→decrypt (suc fuel) idx file text
        (chunk _ nonce ln ct pt fin out _ _ n12 l4 u pos d rest ef et) h =
      let size = ap length ef ∙ length_chunk nonce ln ct fin n12 l4 in
      let more = Chunks→decrypt fuel (suc idx) fin out rest (omega arith) in
      rw (ef, et, decrypt_chunk fuel idx nonce ln ct fin n12 l4 u pos, d, more) refl

is_magic-length : (m : Bytes) → is_magic m ≡ true → length m ≡ 7
unfolding is_magic
is_magic-length m h = elim (Bool-cases (text_eq m magic_new)) [
  | inl e ↦ rw (text_eq_sound m magic_new e) refl
  | inr e ↦ rw (text_eq_sound m magic_old (rw e at h)) refl
]

-- Behind a good header, the reader reads the chunks.
pub decrypt_header :
    (key : Aead) (kind job_id magic size body : Bytes)
    → is_magic magic ≡ true
    → length size ≡ 4
    → let file = magic ++ (format_version_chunked ∷ (size ++ body)) in
      decrypt_bytes key file kind job_id
      ≡ decrypt_chunks (suc (length file)) key (aad_base kind job_id) 0 body
unfolding decrypt_bytes version
decrypt_header key kind job_id magic size body known sized =
    let m7 = is_magic-length magic known in
    let rest = format_version_chunked ∷ (size ++ body) in
    rw
      (
        take-append_at 7 magic rest m7,
        drop-append_at 7 magic rest m7,
        known,
        take-append_at 4 size body sized,
        drop-append_at 4 size body sized,
        sized,
      )
      refl

module _ (key : Aead) (kind job_id file text : Bytes) where
  pub IsContainer→decrypt :
      IsContainer key kind job_id file text → decrypt_bytes key file kind job_id ≡ ok text
  IsContainer→decrypt c =
      let rest = format_version_chunked ∷ (c.size ++ c.body) in
      rw (c.laid_out, decrypt_header key kind job_id c.magic c.size c.body c.known c.sized)
        (Chunks→decrypt key (aad_base kind job_id) _ 0 c.body text c.chunks
          (omega (arith, length-append c.magic rest, length-append c.size c.body)))

-- A container is recognised as encrypted.
pub IsContainer-is_encrypted :
    (key : Aead) (kind job_id file text : Bytes)
    → IsContainer key kind job_id file text
    → is_encrypted (some file) ≡ true
unfolding is_encrypted
IsContainer-is_encrypted key kind job_id file text c =
    let rest = format_version_chunked ∷ (c.size ++ c.body) in
    rw (c.laid_out, take-append_at 7 c.magic rest (is_magic-length c.magic c.known)) c.known
