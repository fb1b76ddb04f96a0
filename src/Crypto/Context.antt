-- ===== src/Crypto/Context.antt =====
-- A container of src/dubbing_pipeline/security/crypto.py that is read for another kind of data or
-- another job than it was written for.
use dubbing_pipeline.Base.{
  ℕ, ◌+◌, ◌<◌, ◌≡◌, ◌≢◌, refl, ap, arith, true, false, [], ◌∷◌, ◌++◌, codes, length, take, drop,
  is_empty, length-append, length-drop, length-take-le, lower, strip, none, err, ◌>>=◌, text_eq,
  show_ℕ,
}
use dubbing_pipeline.Crypto.Words.{Bytes, Error, pack-unpack}
use dubbing_pipeline.Crypto.Container.{
  Aead, IsAead, magic_new, chunk_bytes, is_magic, aad_base, aad_at, opened, encrypt_bytes,
  decrypt_bytes,
}
use dubbing_pipeline.Crypto.Format.{decrypt_chunk, decrypt_header}
use dubbing_pipeline.Crypto.Writing.{encrypt-Chunks}
use dubbing_pipeline.Crypto.Cutting.{encrypt_chunk}

magic_known : is_magic magic_new ≡ true
unfolding is_magic text_eq
magic_known = refl

-- The contexts of two jobs are told apart by the length of the job's id.
pub aad-ne_of_length :
    (kind job_id other : Bytes)
    → length (strip job_id) ≢ length (strip other)
    → aad_at (aad_base kind job_id) 0 ≢ aad_at (aad_base kind other) 0
unfolding aad_at aad_base
aad-ne_of_length kind job_id other h e = h (same_length (ap length e))
  where
    tail : Bytes
    tail = b':' ∷ show_ℕ 0

    size :
        (id : Bytes)
        → length (aad_base kind id ++ tail)
          ≡ 17 + (length (lower (strip kind)) + (1 + (length (strip id) + length tail)))
    size id = omega (
      arith,
      length-append (codes "dubbing_pipeline:" ++ (lower (strip kind) ++ (codes ":" ++ strip id)))
          tail,
      length-append (codes "dubbing_pipeline:") (lower (strip kind) ++ (codes ":" ++ strip id)),
      length-append (lower (strip kind)) (codes ":" ++ strip id),
      length-append (codes ":") (strip id),
    )

    same_length :
        length (aad_base kind job_id ++ tail) ≡ length (aad_base kind other ++ tail)
        → length (strip job_id) ≡ length (strip other)
    same_length e = omega (arith, size job_id, size other)

module _ (key : Aead) (nonce : ℕ → Bytes) (lawful : IsAead key)
    (nonce_12 : (i : ℕ) → length (nonce i) ≡ 12) where
  -- Data that were written for one context are refused in another, if the cipher refuses the first chunk
  -- there.
  pub other_context_refused :
      (input kind job_id kind' other : Bytes)
      → 0 < length input
      → ((n pt : Bytes)
          → key.decrypt n
              (key.encrypt n pt (aad_at (aad_base kind job_id) 0))
              (aad_at (aad_base kind' other) 0)
            ≡ none)
      → (encrypt_bytes key nonce input kind job_id >>= λ file. decrypt_bytes key file kind' other)
        ≡ err Error.invalid_tag
  unfolding encrypt_bytes opened
  other_context_refused input kind job_id kind' other pos refuses =
      let base = aad_base kind job_id in
      let ct = key.encrypt (nonce 0) (take chunk_bytes input) (aad_at base 0) in
      let tagged = lawful.tagged (nonce 0) (take chunk_bytes input) (aad_at base 0) (nonce_12 0) in
      let (size, packed, s4, _) = pack-unpack chunk_bytes (omega arith) in
      let (ln, ct_packed, l4, u) =
        pack-unpack (length ct) (omega (arith, length-take-le chunk_bytes input)) in
      let (rest, more, _) =
        encrypt-Chunks key nonce lawful nonce_12 chunk_bytes base (length input) 1
          (drop chunk_bytes input) (omega arith) (omega arith)
          (omega (arith, length-drop chunk_bytes input)) in
      rw
        (
          packed,
          encrypt_chunk key nonce chunk_bytes base (length input) 0 input (some_left input pos),
          ct_packed,
          more,
          decrypt_header key kind' other magic_new size (nonce 0 ++ (ln ++ (ct ++ rest)))
              magic_known s4,
          decrypt_chunk key (aad_base kind' other) _ 0 (nonce 0) ln ct rest (nonce_12 0) l4 u
              (omega arith),
          refuses (nonce 0) (take chunk_bytes input),
        )
        refl
    where
      some_left : (input : Bytes) → 0 < length input → is_empty (take chunk_bytes input) ≡ false
      some_left [] h = absurd (omega arith)
      some_left (b ∷ input) h = refl
