-- ===== src/Crypto/Writing.antt =====
-- What `encrypt_file` of src/dubbing_pipeline/security/crypto.py writes: a container of the format,
-- which `decrypt_file` turns back into the input.
use dubbing_pipeline.Base.{
  ℕ, zero, suc, ◌+◌, ◌<◌, ◌≡◌, refl, sym, inl, inr, arith, [], ◌∷◌, ◌++◌, true, false, length, take,
  drop, is_empty, Bool-cases, take-append-drop, length-take-le, length-drop, text_eq, ok, ◌>>=◌,
}
use dubbing_pipeline.Crypto.Words.{Bytes, pack-unpack}
use dubbing_pipeline.Crypto.Container.{
  Aead, IsAead, magic_new, format_version_chunked, chunk_bytes, is_magic, aad_base, aad_at,
  encrypt_chunks, encrypt_bytes, decrypt_bytes,
}
use dubbing_pipeline.Crypto.Format.{Chunks, end_of_file, chunk, IsContainer}
use dubbing_pipeline.Crypto.Reading.{decrypt_iff}

take_empty : (chunk : ℕ) (fin : Bytes) → 0 < chunk → is_empty (take chunk fin) ≡ true → fin ≡ []
take_empty zero fin h e = absurd (omega arith)
take_empty (suc n) [] h e = refl
take_empty (suc n) (b ∷ fin) h e = absurd (cc)

take_some : (n : ℕ) (fin : Bytes) → is_empty (take n fin) ≡ false → (0 < n) × (0 < length fin)
take_some zero fin e = absurd (cc)
take_some (suc n) [] e = absurd (cc)
take_some (suc n) (b ∷ fin) e = (omega arith, omega arith)

module _ (key : Aead) (nonce : ℕ → Bytes) (lawful : IsAead key)
    (nonce_12 : (i : ℕ) → length (nonce i) ≡ 12) where
  -- The writer makes the chunks of its input, given a round for each and one more.
  pub encrypt-Chunks :
      (chunk_size : ℕ) (base : Bytes) (fuel idx : ℕ) (fin : Bytes)
      → 0 < chunk_size
      → chunk_size + 16 < 4294967296
      → length fin < fuel
      → (file : Bytes) × (encrypt_chunks fuel key nonce chunk_size base idx fin ≡ ok file)
        × Chunks key base idx file fin
  unfolding encrypt_chunks
  encrypt-Chunks chunk_size base zero idx fin p m h = absurd (omega arith)
  encrypt-Chunks chunk_size base (suc fuel) idx fin p m h =
      elim (Bool-cases (is_empty (take chunk_size fin))) [
        | inl e ↦ rw (e, take_empty chunk_size fin p e) ([], refl, end_of_file idx)
        | inr e ↦
            let some_left = take_some chunk_size fin e in
            let pt = take chunk_size fin in
            let ct = key.encrypt (nonce idx) pt (aad_at base idx) in
            let size = lawful.tagged (nonce idx) pt (aad_at base idx) (nonce_12 idx) in
            let (ln, packed, l4, u) =
              pack-unpack (length ct) (omega (arith, length-take-le chunk_size fin)) in
            let (rest, more, chunks) =
              encrypt-Chunks chunk_size base fuel (suc idx) (drop chunk_size fin) p m
                (omega (arith, length-drop chunk_size fin)) in
            (
              nonce idx ++ (ln ++ (ct ++ rest)),
              rw (e, packed, more) refl,
              chunk idx (nonce idx) ln ct pt rest (drop chunk_size fin) _ _ (nonce_12 idx) l4 u
                  (omega arith) (lawful.inverts (nonce idx) pt (aad_at base idx) (nonce_12 idx))
                  chunks refl (sym (take-append-drop chunk_size fin)),
            )
      ]

  pub encrypt-IsContainer :
      (input kind job_id : Bytes)
      → (file : Bytes) × (encrypt_bytes key nonce input kind job_id ≡ ok file)
        × IsContainer key kind job_id file input
  unfolding encrypt_bytes is_magic text_eq
  encrypt-IsContainer input kind job_id =
      let (size, packed, s4, _) = pack-unpack chunk_bytes (omega arith) in
      let (body, made, chunks) =
        encrypt-Chunks chunk_bytes (aad_base kind job_id) (suc (length input)) 0 input (omega arith)
          (omega arith) (omega arith) in
      (
        magic_new ++ (format_version_chunked ∷ (size ++ body)),
        rw (packed, made) refl,
        record {
          magic = magic_new;
          size = size;
          body = body;
          known = refl;
          sized = s4;
          laid_out = refl;
          chunks = chunks;
        },
      )

  -- Encryption always succeeds, and decryption for the same kind of data and the same job gives the
  -- input back.
  pub decrypt-encrypt :
      (input kind job_id : Bytes)
      → (encrypt_bytes key nonce input kind job_id >>= λ file. decrypt_bytes key file kind job_id)
        ≡ ok input
  decrypt-encrypt input kind job_id =
      let (file, made, container) = encrypt-IsContainer input kind job_id in
      rw made ((decrypt_iff key kind job_id file input).1 container)
