-- ===== src/Crypto/Words.antt =====
-- Results with the errors of security/crypto.py, and `struct.pack(">I", n)` with its inverse.
use dubbing_pipeline.Base.{
  Outcome, ok, err, ℕ, ◌+◌, ◌*◌, ◌/◌, ◌%◌, ◌<◌, ◌≡◌, refl, [], ◌∷◌, Text, length, arith, ltb,
  lt→ltb, if◌then◌else◌,
}

abbrev pub Bytes : Type 0
Bytes = Text

-- The messages of `CryptoFormatError`, `struct.error`, the `InvalidTag` of the package, a file that
-- is not there, and a loop that ran out of fuel.
pub data Error : Type 0 where
  file_not_found : Error
  missing_header : Error
  missing_version : Error
  unsupported_version : ℕ → Error
  missing_chunk_size : Error
  truncated_nonce : Error
  truncated_length : Error
  invalid_chunk_length : Error
  truncated_ciphertext : Error
  invalid_tag : Error
  struct_error : Error
  out_of_fuel : Error

abbrev pub Result : Type 0 → Type 0
Result A = Outcome Error A

-- struct.pack(">I", n)
unfoldable pub pack_u32 : ℕ → Result Bytes
pack_u32 n =
    if ltb n 4294967296
    then ok ((n / 16777216) ∷ (n / 65536 % 256) ∷ (n / 256 % 256) ∷ (n % 256) ∷ [])
    else err Error.struct_error

-- struct.unpack(">I", b)[0], of four bytes
unfoldable pub unpack_u32 : Bytes → ℕ
unpack_u32 (a ∷ b ∷ c ∷ d ∷ []) = a * 16777216 + b * 65536 + c * 256 + d
unpack_u32 _ = 0

-- What `pack` writes is four bytes that `unpack` reads back.
pub pack-unpack :
    (n : ℕ)
    → n < 4294967296
    → (b : Bytes) × (pack_u32 n ≡ ok b) × (length b ≡ 4) × (unpack_u32 b ≡ n)
unfolding pack_u32 unpack_u32
pack-unpack n h =
    rw (lt→ltb n 4294967296 h) (
      (n / 16777216) ∷ (n / 65536 % 256) ∷ (n / 256 % 256) ∷ (n % 256) ∷ [],
      refl,
      refl,
      omega arith,
    )
