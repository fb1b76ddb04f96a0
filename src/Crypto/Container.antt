-- ===== src/Crypto/Container.antt =====
-- The writer and the reader of the container: `_aad`, `encrypt_file`, `decrypt_file` and their
-- wrappers for byte strings, of src/dubbing_pipeline/security/crypto.py.
use dubbing_pipeline.Base.{
  ℕ, zero, suc, ◌+◌, ◌≡◌, Bool, false, [], ◌∷◌, ◌++◌, codes, length, take, drop, ◌==◌, ltb,
  if◌then◌else◌, Option, none, some, strip, lower, show_ℕ, is_empty, text_eq, ◌||◌, ok, err,
  require, ◌>>=◌, ◌>>◌,
}
use dubbing_pipeline.Crypto.Words.{Bytes, Error, Result, pack_u32, unpack_u32}

-- `AESGCM(key)` of the package: `encrypt(nonce, data, aad)`, and `decrypt`, which raises `InvalidTag`
-- where it returns nothing.
pub record Aead : Type 0 where
  pub encrypt : Bytes → Bytes → Bytes → Bytes
  pub decrypt : Bytes → Bytes → Bytes → Option Bytes

-- What the package documents: under a nonce of twelve bytes, decryption inverts encryption, and a
-- ciphertext is 16 bytes longer than its text.
pub record IsAead (key : Aead) : Type 0 where
  pub inverts :
      (nonce pt aad : Bytes)
      → length nonce ≡ 12
      → key.decrypt nonce (key.encrypt nonce pt aad) aad ≡ some pt
  pub tagged :
      (nonce pt aad : Bytes)
      → length nonce ≡ 12
      → length (key.encrypt nonce pt aad) ≡ length pt + 16

abbrev pub magic_new : Bytes
magic_new = codes "DBPENC1"

abbrev pub magic_old : Bytes
magic_old = codes "ANV2ENC"

abbrev pub format_version_chunked : ℕ
format_version_chunked = 2

abbrev pub chunk_bytes : ℕ
chunk_bytes = 4194304

-- head in _MAGIC_SET
unfoldable pub is_magic : Bytes → Bool
is_magic head = text_eq head magic_new || text_eq head magic_old

-- is_encrypted_path, of a file that can be read or of none
unfoldable pub is_encrypted : Option Bytes → Bool
unfolding is_magic
is_encrypted none = false
is_encrypted (some file) = is_magic (take 7 file)

unfoldable pub aad_base : Bytes → Bytes → Bytes
aad_base kind job_id =
    codes "dubbing_pipeline:" ++ (lower (strip kind) ++ (codes ":" ++ strip job_id))

-- aad_base + b":" + str(idx)
unfoldable pub aad_at : Bytes → ℕ → Bytes
aad_at base idx = base ++ b':' ∷ show_ℕ idx

-- The loop of `encrypt_file`: `chunk` bytes are read at a time until none is left.
unfoldable pub encrypt_chunks : ℕ → Aead → (ℕ → Bytes) → ℕ → Bytes → ℕ → Bytes → Result Bytes
encrypt_chunks zero key nonce chunk base idx fin = err Error.out_of_fuel
encrypt_chunks (suc fuel) key nonce chunk base idx fin =
    let pt = take chunk fin in
    let write = do
      let ct = key.encrypt (nonce idx) pt (aad_at base idx)
      ln ← pack_u32 (length ct)
      rest ← encrypt_chunks fuel key nonce chunk base (suc idx) (drop chunk fin)
      ok (nonce idx ++ (ln ++ (ct ++ rest)))
    in if is_empty pt then ok [] else write

unfoldable pub opened : Option Bytes → Result Bytes
opened none = err Error.invalid_tag
opened (some pt) = ok pt

-- The loop of `decrypt_file`.
unfoldable pub decrypt_chunks : ℕ → Aead → Bytes → ℕ → Bytes → Result Bytes
decrypt_chunks zero key base idx fin = err Error.out_of_fuel
decrypt_chunks (suc fuel) key base idx fin =
    let nonce = take 12 fin in
    let read = do
      require (length nonce == 12) Error.truncated_nonce
      let ln_raw = take 4 (drop 12 fin)
      require (length ln_raw == 4) Error.truncated_length
      let ct_len = unpack_u32 ln_raw
      require (ltb 0 ct_len) Error.invalid_chunk_length
      let after = drop 4 (drop 12 fin)
      let ct = take ct_len after
      require (length ct == ct_len) Error.truncated_ciphertext
      pt ← opened (key.decrypt nonce ct (aad_at base idx))
      rest ← decrypt_chunks fuel key base (suc idx) (drop ct_len after)
      ok (pt ++ rest)
    in if is_empty nonce then ok [] else read

-- What `encrypt_file` writes for the bytes of its input: header and chunks.
unfoldable pub encrypt_bytes : Aead → (ℕ → Bytes) → Bytes → Bytes → Bytes → Result Bytes
encrypt_bytes key nonce input kind job_id = do
  size ← pack_u32 chunk_bytes
  let header = magic_new ++ format_version_chunked ∷ size
  let base = aad_base kind job_id
  chunks ← encrypt_chunks (suc (length input)) key nonce chunk_bytes base 0 input
  ok (header ++ chunks)

-- int(ver_b[0]), of the byte after the magic, if there is one
unfoldable pub version : Bytes → Result ℕ
version [] = err Error.missing_version
version (v ∷ fin) = ok v

-- What `decrypt_file` writes for the bytes of its input.
unfoldable pub decrypt_bytes : Aead → Bytes → Bytes → Bytes → Result Bytes
decrypt_bytes key input kind job_id = do
  require (is_magic (take 7 input)) Error.missing_header
  let after_magic = drop 7 input
  ver ← version after_magic
  require (ver == format_version_chunked) (Error.unsupported_version ver)
  let after_version = drop 1 after_magic
  require (length (take 4 after_version) == 4) Error.missing_chunk_size
  decrypt_chunks (suc (length input)) key (aad_base kind job_id) 0 (drop 4 after_version)

-- The output file after a call, and what the call raises: the text goes to a file of its own, which
-- takes the place of the output at the end, and is removed on an error.
unfoldable pub replaced : Option Bytes → Result Bytes → Option Bytes × Option Error
replaced out_file (ok b) = (some b, none)
replaced out_file (err e) = (out_file, some e)

unfoldable pub encrypt_file :
    Aead → (ℕ → Bytes) → Option Bytes → Option Bytes → Bytes → Bytes → Option Bytes × Option Error
encrypt_file key nonce none out_file kind job_id = (out_file, some Error.file_not_found)
encrypt_file key nonce (some input) out_file kind job_id =
    replaced out_file (encrypt_bytes key nonce input kind job_id)

unfoldable pub decrypt_file :
    Aead → Option Bytes → Option Bytes → Bytes → Bytes → Option Bytes × Option Error
decrypt_file key none out_file kind job_id = (out_file, some Error.file_not_found)
decrypt_file key (some input) out_file kind job_id =
    replaced out_file (decrypt_bytes key input kind job_id)
