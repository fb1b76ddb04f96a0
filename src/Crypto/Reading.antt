-- ===== src/Crypto/Reading.antt =====
-- The reader of src/dubbing_pipeline/security/crypto.py accepts nothing but containers of the format.
use dubbing_pipeline.Base.{
  ℕ, zero, suc, ◌<◌, ◌≡◌, refl, sym, ◌↔◌, inl, inr, true, false, [], ◌∷◌, ◌++◌, length, take, drop,
  Option, none, some, is_empty, Bool-cases, ==_iff, ltb→lt, take-append-drop, ok, require_passed,
  bind_passed,
}
use dubbing_pipeline.Crypto.Words.{Bytes, unpack_u32}
use dubbing_pipeline.Crypto.Container.{
  Aead, format_version_chunked, aad_base, aad_at, opened, version, decrypt_chunks, decrypt_bytes,
}
use dubbing_pipeline.Crypto.Format.{Chunks, end_of_file, chunk, IsContainer, IsContainer→decrypt}

take_empty : (file : Bytes) → is_empty (take 12 file) ≡ true → file ≡ []
take_empty [] h = refl
take_empty (b ∷ file) h = absurd (cc)

-- The parts that are read one after the other make up the file.
read_back :
    (file : Bytes)
    → let after = drop 4 (drop 12 file) in
      let n = unpack_u32 (take 4 (drop 12 file)) in
      file ≡ take 12 file ++ (take 4 (drop 12 file) ++ (take n after ++ drop n after))
read_back file = sym (
    rw
      (
        take-append-drop (unpack_u32 (take 4 (drop 12 file))) (drop 4 (drop 12 file)),
        take-append-drop 4 (drop 12 file),
        take-append-drop 12 file,
      )
      refl)

module _ (key : Aead) (base : Bytes) where
  no_fuel : (idx : ℕ) (file text : Bytes) → decrypt_chunks zero key base idx file ≡ ok text → ⊥
  unfolding decrypt_chunks
  no_fuel idx file text e = cc

  opened-some : (o : Option Bytes) (pt : Bytes) → opened o ≡ ok pt → o ≡ some pt
  unfolding opened
  opened-some none pt h = absurd (cc)
  opened-some (some p) pt h = cc

  -- The first chunk of a file that the reader accepts.
  first_chunk :
      (fuel idx : ℕ) (file text : Bytes)
      → is_empty (take 12 file) ≡ false
      → decrypt_chunks (suc fuel) key base idx file ≡ ok text
      → let nonce = take 12 file in
        let ln = take 4 (drop 12 file) in
        let after = drop 4 (drop 12 file) in
        let ct = take (unpack_u32 ln) after in
        (length nonce ≡ 12)
        × (length ln ≡ 4)
        × (unpack_u32 ln ≡ length ct)
        × (0 < length ct)
        × ((pt : Bytes) × (key.decrypt nonce ct (aad_at base idx) ≡ some pt)
            × ((out : Bytes) × (decrypt_chunks fuel key base (suc idx) (drop (unpack_u32 ln) after)
                  ≡ ok out)
                × (text ≡ pt ++ out)))
  unfolding decrypt_chunks
  first_chunk fuel idx file text n e =
      let (a, e1) = require_passed _ _ _ (rw n at e) in
      let (b, e2) = require_passed _ _ _ e1 in
      let (c, e3) = require_passed _ _ _ e2 in
      let (d, e4) = require_passed _ _ _ e3 in
      let (pt, o, e5) = bind_passed _ _ e4 in
      let (out, m, e6) = bind_passed _ _ e5 in
      (
        (==_iff _ _).0 a,
        (==_iff _ _).0 b,
        sym ((==_iff _ _).0 d),
        rw ((==_iff _ _).0 d) (ltb→lt _ _ c),
        (pt, opened-some _ pt o, (out, m, cc)),
      )

  no_text :
      (fuel idx : ℕ) (file text : Bytes)
      → is_empty (take 12 file) ≡ true
      → decrypt_chunks (suc fuel) key base idx file ≡ ok text
      → text ≡ []
  unfolding decrypt_chunks
  no_text fuel idx file text n e = let e' = rw n at e in cc

  -- What the reader accepts is made of such chunks.
  pub decrypt→Chunks :
      (fuel idx : ℕ) (file text : Bytes)
      → decrypt_chunks fuel key base idx file ≡ ok text
      → Chunks key base idx file text
  decrypt→Chunks zero idx file text e = absurd (no_fuel idx file text e)
  decrypt→Chunks (suc fuel) idx file text e =
      let more =
        decrypt→Chunks fuel (suc idx)
          (drop (unpack_u32 (take 4 (drop 12 file))) (drop 4 (drop 12 file))) in
      elim (Bool-cases (is_empty (take 12 file))) [
        | inl n ↦ rw (take_empty file n, no_text fuel idx file text n e) (end_of_file idx)
        | inr n ↦
            let (n12, l4, u, pos, (pt, d, (out, m, et))) = first_chunk fuel idx file text n e in
            chunk idx (take 12 file) (take 4 (drop 12 file))
              (take (unpack_u32 (take 4 (drop 12 file))) (drop 4 (drop 12 file))) pt
              (drop (unpack_u32 (take 4 (drop 12 file))) (drop 4 (drop 12 file))) out file text n12
              l4 u pos d (more out m) (read_back file) et
      ]

version_read : (fin : Bytes) (v : ℕ) → version fin ≡ ok v → fin ≡ v ∷ drop 1 fin
unfolding version
version_read [] v h = absurd (cc)
version_read (b ∷ fin) v h = cc

laid :
    (file : Bytes) (ver : ℕ)
    → version (drop 7 file) ≡ ok ver
    → ver ≡ format_version_chunked
    → let after = drop 1 (drop 7 file) in
      file ≡ take 7 file ++ (format_version_chunked ∷ (take 4 after ++ drop 4 after))
laid file ver v two = sym (
    rw (take-append-drop 4 (drop 1 (drop 7 file)), ← two, ← version_read (drop 7 file) ver v)
      (take-append-drop 7 file))

module _ (key : Aead) (kind job_id file text : Bytes) where
  decrypt→IsContainer :
      decrypt_bytes key file kind job_id ≡ ok text → IsContainer key kind job_id file text
  unfolding decrypt_bytes
  decrypt→IsContainer e =
      let (known, e1) = require_passed _ _ _ e in
      let (ver, v, e2) = bind_passed (version (drop 7 file)) _ e1 in
      let (two, e3) = require_passed _ _ _ e2 in
      let (four, e4) = require_passed _ _ _ e3 in
      record {
        magic = take 7 file;
        size = take 4 (drop 1 (drop 7 file));
        body = drop 4 (drop 1 (drop 7 file));
        known = known;
        sized = (==_iff _ _).0 four;
        laid_out = laid file ver v ((==_iff _ _).0 two);
        chunks = decrypt→Chunks key (aad_base kind job_id) _ 0 _ text e4;
      }

  -- `decrypt_bytes` succeeds exactly on the containers of the format, and returns their text: on any
  -- other file it raises an error, and it always has enough fuel.
  pub decrypt_iff :
      (decrypt_bytes key file kind job_id ≡ ok text) ↔ IsContainer key kind job_id file text
  decrypt_iff = (decrypt→IsContainer, IsContainer→decrypt key kind job_id file text)
