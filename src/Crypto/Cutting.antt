-- ===== src/Crypto/Cutting.antt =====
-- Files of src/dubbing_pipeline/security/crypto.py that are cut after a whole chunk.
use mathlib.Core.List.{append_assoc}
use dubbing_pipeline.Base.{
  ℕ, zero, suc, ◌+◌, ◌*◌, ◌≤◌, ◌<◌, ◌≡◌, refl, arith, [], ◌∷◌, ◌++◌, false, length, take, drop,
  is_empty, is_empty-eq_false, length-append, length-take, length-drop, take-append_le,
  drop-append_le, eq-nil, take-nil, ok, ◌>>=◌,
}
use dubbing_pipeline.Crypto.Words.{Bytes, pack_u32, pack-unpack}
use dubbing_pipeline.Crypto.Container.{
  Aead, IsAead, magic_new, format_version_chunked, chunk_bytes, aad_base, aad_at, encrypt_chunks,
  encrypt_bytes, decrypt_bytes,
}
use dubbing_pipeline.Crypto.Writing.{encrypt-Chunks, decrypt-encrypt}

module _ (key : Aead) (nonce : ℕ → Bytes) (size : ℕ) (base : Bytes) where
  -- one round of the writer
  pub encrypt_chunk :
      (fuel idx : ℕ) (fin : Bytes)
      → is_empty (take size fin) ≡ false
      → let ct = key.encrypt (nonce idx) (take size fin) (aad_at base idx) in
        encrypt_chunks (suc fuel) key nonce size base idx fin ≡ (
          pack_u32 (length ct) >>= λ ln.
          encrypt_chunks fuel key nonce size base (suc idx) (drop size fin) >>= λ rest.
          ok (nonce idx ++ (ln ++ (ct ++ rest))))
  unfolding encrypt_chunks
  encrypt_chunk fuel idx fin e = rw e refl

  encrypt_end :
      (fuel idx : ℕ) → 0 < size → encrypt_chunks (suc fuel) key nonce size base idx [] ≡ ok []
  unfolding encrypt_chunks
  encrypt_end fuel idx h = rw (take-nil {A = ℕ} size) refl

  module _ (lawful : IsAead key) (nonce_12 : (i : ℕ) → length (nonce i) ≡ 12) (pos : 0 < size)
      (small : size + 16 < 4294967296) where
    -- The chunks of whole blocks `a` stand first among those of `a ++ b`.
    cut_chunks :
        (k f g idx : ℕ) (a b : Bytes)
        → length a ≡ k * size
        → length (a ++ b) < f
        → length a < g
        → (cut : Bytes) × (rest : Bytes) × (encrypt_chunks f key nonce size base idx (a ++ b)
            ≡ ok (cut ++ rest))
          × (encrypt_chunks g key nonce size base idx a ≡ ok cut)
    cut_chunks k zero g idx a b n hf hg = absurd (omega arith)
    cut_chunks k (suc f) zero idx a b n hf hg = absurd (omega arith)
    cut_chunks zero (suc f) (suc g) idx a b n hf hg =
        let (file, made, _) =
          encrypt-Chunks key nonce lawful nonce_12 size base (suc f) idx b pos small
            (omega (arith, length-append a b)) in
        rw (eq-nil a (omega arith)) ([], file, made, encrypt_end g idx pos)
    cut_chunks (suc k) (suc f) (suc g) idx a b n hf hg =
        let ct = key.encrypt (nonce idx) (take size a) (aad_at base idx) in
        let long : size ≤ length a = grind arith in
        let full = length-take size a long in
        let (ln, packed, _, _) = pack-unpack (length ct) (
          omega
            (arith, lawful.tagged (nonce idx) (take size a) (aad_at base idx) (nonce_12 idx))) in
        let (cut, rest, whole, part) =
          cut_chunks k f g (suc idx) (drop size a) b (grind (arith, length-drop size a))
            (omega (arith, length-append a b, length-append (drop size a) b, length-drop size a))
            (omega (arith, length-drop size a)) in
        let some_left = is_empty-eq_false (take size a) (omega arith) in
        (
          nonce idx ++ (ln ++ (ct ++ cut)),
          rest,
          rw
              (
                encrypt_chunk f idx (a ++ b) (rw (take-append_le size a b long) some_left),
                take-append_le size a b long,
                drop-append_le size a b long,
                packed,
                whole,
                append_assoc (nonce idx) (ln ++ (ct ++ cut)) rest,
                append_assoc ln (ct ++ cut) rest,
                append_assoc ct cut rest,
              )
              refl,
          rw (encrypt_chunk g idx a some_left, packed, part) refl,
        )

-- A file that is cut after a whole chunk is decrypted without an error: the container of a text that
-- begins with any number of whole blocks has a beginning that is decrypted to these blocks alone.
pub cut_accepted :
    (key : Aead) (nonce : ℕ → Bytes)
    → IsAead key
    → ((i : ℕ) → length (nonce i) ≡ 12)
    → (k : ℕ) (a b kind job_id : Bytes) → length a ≡ k * chunk_bytes
    → (cut : Bytes) × (rest : Bytes) × (encrypt_bytes key nonce (a ++ b) kind job_id
        ≡ ok (cut ++ rest))
      × (decrypt_bytes key cut kind job_id ≡ ok a)
unfolding encrypt_bytes
cut_accepted key nonce lawful nonce_12 k a b kind job_id n =
    let (size, packed, _, _) = pack-unpack chunk_bytes (omega arith) in
    let (cut, rest, whole, part) =
      cut_chunks key nonce chunk_bytes (aad_base kind job_id) lawful nonce_12 (omega arith)
        (omega arith) k (suc (length (a ++ b))) (suc (length a)) 0 a b n (omega arith)
        (omega arith) in
    let header = magic_new ++ (format_version_chunked ∷ size) in
    let made : encrypt_bytes key nonce a kind job_id ≡ ok (header ++ cut) =
      rw (packed, part) refl in
    (
      header ++ cut,
      rest,
      rw (packed, whole, append_assoc header cut rest) refl,
      rw made at (decrypt-encrypt key nonce lawful nonce_12 a kind job_id),
    )
