-- ===== src/Crypto/Fuel.antt =====
-- The loops of src/dubbing_pipeline/security/crypto.py end: each round reads at least one byte.
use mathlib.Core.Bool.{true≢false}
use dubbing_pipeline.Base.{
  ℕ, zero, suc, ◌<◌, ◌≡◌, ◌≢◌, refl, inl, inr, arith, Bool, true, false, [], ◌∷◌, ◌++◌, length,
  take, drop, Option, none, some, is_empty, Bool-cases, length-drop, ◌==◌, ltb, ok, err, require,
  ◌>>=◌, ◌>>◌,
}
use dubbing_pipeline.Crypto.Words.{Bytes, Error, Result, pack_u32, unpack_u32}
use dubbing_pipeline.Crypto.Container.{
  Aead, chunk_bytes, format_version_chunked, is_magic, version, aad_base, aad_at, opened,
  encrypt_chunks, decrypt_chunks, encrypt_bytes, decrypt_bytes,
}

-- A result other than running out of fuel.
abbrev pub Ends : Result Bytes → Type 0
Ends r = r ≢ err Error.out_of_fuel

abbrev is_fuel : Error → Bool
is_fuel Error.out_of_fuel = true
is_fuel _ = false

not_fuel : (e : Error) → is_fuel e ≡ false → Ends (err e)
not_fuel e h q = let same : e ≡ Error.out_of_fuel = cc in true≢false (rw same at h)

require-Ends :
    (b : Bool) (e : Error) (k : Result Bytes) → is_fuel e ≡ false → Ends k → Ends (require b e >> k)
require-Ends true e k h m = m
require-Ends false e k h m = not_fuel e h

opened-Ends :
    (o : Option Bytes) (f : Bytes → Result Bytes)
    → ((b : Bytes) → Ends (f b))
    → Ends (opened o >>= f)
unfolding opened
opened-Ends none f h = λ q. cc
opened-Ends (some b) f h = h b

pack-Ends :
    (n : ℕ) (f : Bytes → Result Bytes) → ((b : Bytes) → Ends (f b)) → Ends (pack_u32 n >>= f)
unfolding pack_u32
pack-Ends n f h = elim (Bool-cases (ltb n 4294967296)) [
  | inl e ↦ rw e (h _)
  | inr e ↦ rw e (λ q. cc)
]

version-Ends :
    (fin : Bytes) (f : ℕ → Result Bytes) → ((v : ℕ) → Ends (f v)) → Ends (version fin >>= f)
unfolding version
version-Ends [] f h = λ q. cc
version-Ends (v ∷ fin) f h = h v

last-Ends : (r : Result Bytes) (f : Bytes → Bytes) → Ends r → Ends (r >>= λ b. ok (f b))
last-Ends (ok b) f h = λ q. cc
last-Ends (err e) f h = h

nonempty : (n : ℕ) (fin : Bytes) → is_empty (take n fin) ≡ false → (0 < n) × (0 < length fin)
nonempty zero fin e = absurd (cc)
nonempty (suc n) [] e = absurd (cc)
nonempty (suc n) (b ∷ fin) e = (omega arith, omega arith)

module _ (key : Aead) (base : Bytes) where
  decrypt_chunks-Ends :
      (fuel idx : ℕ) (fin : Bytes) → length fin < fuel → Ends (decrypt_chunks fuel key base idx fin)
  unfolding decrypt_chunks
  decrypt_chunks-Ends zero idx fin h = absurd (omega arith)
  decrypt_chunks-Ends (suc fuel) idx fin h = elim (Bool-cases (is_empty (take 12 fin))) [
    | inl e ↦ rw e (λ q. cc)
    | inr e ↦
        let more =
          decrypt_chunks-Ends fuel (suc idx)
            (drop (unpack_u32 (take 4 (drop 12 fin))) (drop 4 (drop 12 fin))) in
        let after = drop 4 (drop 12 fin) in
        let n = unpack_u32 (take 4 (drop 12 fin)) in
        let last = opened-Ends (key.decrypt (take 12 fin) (take n after) (aad_at base idx)) _ (λ pt.
          last-Ends _ (◌++◌ pt) (
            more (
              omega (
                arith,
                nonempty 12 fin e,
                length-drop 12 fin,
                length-drop 4 (drop 12 fin),
                length-drop n after,
              )))) in
        rw e (
          require-Ends (length (take 12 fin) == 12) Error.truncated_nonce _ refl (
            require-Ends (length (take 4 (drop 12 fin)) == 4) Error.truncated_length _ refl (
              require-Ends (ltb 0 n) Error.invalid_chunk_length _ refl (
                require-Ends (length (take n after) == n) Error.truncated_ciphertext _ refl last))))
  ]

  encrypt_chunks-Ends :
      (nonce : ℕ → Bytes) (size fuel idx : ℕ) (fin : Bytes)
      → 0 < size
      → length fin < fuel
      → Ends (encrypt_chunks fuel key nonce size base idx fin)
  unfolding encrypt_chunks
  encrypt_chunks-Ends nonce size zero idx fin p h = absurd (omega arith)
  encrypt_chunks-Ends nonce size (suc fuel) idx fin p h =
      elim (Bool-cases (is_empty (take size fin))) [
        | inl e ↦ rw e (λ q. cc)
        | inr e ↦
            let more =
              encrypt_chunks-Ends nonce size fuel (suc idx) (drop size fin) p
                (omega (arith, nonempty size fin e, length-drop size fin)) in
            rw e (
              pack-Ends (length (key.encrypt (nonce idx) (take size fin) (aad_at base idx))) _ λ ln.
                last-Ends _
                  (λ rest.
                    nonce idx
                    ++ (ln ++ (key.encrypt (nonce idx) (take size fin) (aad_at base idx) ++ rest)))
                  more)
      ]

-- Neither loop runs out of fuel: on every input, with any cipher and any nonces, encryption and
-- decryption end with a file or with one of the errors that the code raises.
pub loops_end :
    (key : Aead) (nonce : ℕ → Bytes) (input kind job_id : Bytes)
    → Ends (encrypt_bytes key nonce input kind job_id) × Ends (decrypt_bytes key input kind job_id)
unfolding encrypt_bytes decrypt_bytes
loops_end key nonce input kind job_id = (
  pack-Ends chunk_bytes _ λ size. last-Ends _ _ (
      encrypt_chunks-Ends key (aad_base kind job_id) nonce chunk_bytes (suc (length input)) 0 input
        (omega arith) (omega arith)),
  require-Ends (is_magic (take 7 input)) Error.missing_header _ refl (
      version-Ends (drop 7 input) _ λ ver.
        require-Ends (ver == format_version_chunked) (Error.unsupported_version ver) _ refl (
          require-Ends (length (take 4 (drop 1 (drop 7 input))) == 4) Error.missing_chunk_size _
            refl
            (decrypt_chunks-Ends key (aad_base kind job_id) _ 0 (drop 4 (drop 1 (drop 7 input))) (
              omega (
                arith,
                length-drop 7 input,
                length-drop 1 (drop 7 input),
                length-drop 4 (drop 1 (drop 7 input)),
              ))))),
)
