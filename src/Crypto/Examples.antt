-- ===== src/Crypto/Examples.antt =====
-- A cipher that meets what src/dubbing_pipeline/security/crypto.py relies on, and runs of both calls.
use dubbing_pipeline.Base.{
  ℕ, ◌+◌, ◌-◌, ◌%◌, ◌≡◌, refl, arith, [], ◌∷◌, ◌++◌, codes, length, take, drop, Option, none, some,
  if◌then◌else◌, text_eq, text_eq_refl, true, length-append, take-append_at, drop-append_at, lower,
  strip, show_ℕ, ok,
}
use dubbing_pipeline.Crypto.Words.{Bytes, Error, pack_u32, unpack_u32}
use dubbing_pipeline.Crypto.Container.{
  Aead, IsAead, encrypt_chunks, decrypt_chunks, encrypt_bytes, decrypt_bytes, encrypt_file,
  decrypt_file, replaced, version, opened, is_magic, is_encrypted, aad_at, aad_base,
}
use dubbing_pipeline.Crypto.Fuel.{Ends, loops_end}
use dubbing_pipeline.Crypto.Files.{Decrypted, decrypt_file_lem, decrypt_file-encrypt_file}
use dubbing_pipeline.Crypto.Cutting.{cut_accepted}

unfoldable pub sum : Bytes → ℕ
sum [] = 0
sum (b ∷ bs) = b + sum bs

-- A checksum of nonce and associated data stands for the tag.
unfoldable pub tag : Bytes → Bytes → Bytes
unfolding sum
tag nonce aad =
    ((sum nonce + sum aad) % 256) ∷ 0 ∷ 0 ∷ 0 ∷ 0 ∷ 0 ∷ 0 ∷ 0 ∷ 0 ∷ 0 ∷ 0 ∷ 0 ∷ 0 ∷ 0 ∷ 0 ∷ 0 ∷ []

unfoldable pub toy : Aead
unfolding tag
toy = record {
  encrypt = λ nonce pt aad. pt ++ tag nonce aad;
  decrypt = λ nonce ct aad.
      let n = length ct - 16 in
      if text_eq (drop n ct) (tag nonce aad) then some (take n ct) else none;
}

pub toy-IsAead : IsAead toy
unfolding toy
toy-IsAead = record {
  inverts = λ nonce pt aad _.
      let n : length pt ≡ length (pt ++ tag nonce aad) - 16 =
        omega (arith, length-append pt (tag nonce aad), tag_16 nonce aad) in
      rw
        (
          drop-append_at (length (pt ++ tag nonce aad) - 16) pt (tag nonce aad) n,
          take-append_at (length (pt ++ tag nonce aad) - 16) pt (tag nonce aad) n,
          text_eq_refl (tag nonce aad),
        )
        refl;
  tagged = λ nonce pt aad _. omega (arith, length-append pt (tag nonce aad), tag_16 nonce aad);
}
  where
    tag_16 : (nonce aad : Bytes) → length (tag nonce aad) ≡ 16
    tag_16 nonce aad = refl

unfoldable pub nonces : ℕ → Bytes
nonces i = i ∷ 7 ∷ 7 ∷ 7 ∷ 7 ∷ 7 ∷ 7 ∷ 7 ∷ 7 ∷ 7 ∷ 7 ∷ 7 ∷ []

pub nonces_12 : (i : ℕ) → length (nonces i) ≡ 12
unfolding nonces
nonces_12 i = refl

abbrev secret : Bytes
secret = codes "take 1"

abbrev stored : Option Bytes
stored = (encrypt_file toy nonces (some secret) none (codes "uploads") (codes "j1")).0

-- A container is recognised; the kind is compared in lower case; another job's data are refused.
stored_encrypted : is_encrypted stored ≡ true
unfolding encrypt_file is_encrypted encrypt_bytes encrypt_chunks replaced pack_u32 toy nonces aad_at
    aad_base text_eq lower strip show_ℕ
stored_encrypted = refl

same_kind : decrypt_file toy stored none (codes " Uploads") (codes "j1") ≡ (some secret, none)
unfolding encrypt_file decrypt_file encrypt_bytes encrypt_chunks replaced pack_u32 unpack_u32 toy
    nonces aad_at aad_base text_eq lower strip show_ℕ decrypt_bytes decrypt_chunks is_magic version
    opened
same_kind = refl

other_job :
    decrypt_file toy stored (some secret) (codes "uploads") (codes "j2")
    ≡ (some secret, some Error.invalid_tag)
unfolding encrypt_file decrypt_file encrypt_bytes encrypt_chunks replaced pack_u32 unpack_u32 toy
    nonces aad_at aad_base text_eq lower strip show_ℕ decrypt_bytes decrypt_chunks is_magic version
    opened
other_job = refl

decrypt_file-encrypt_file_example :
    ((encrypt_file toy nonces (some secret) none (codes "uploads") (codes "j1")).1 ≡ none)
    × (decrypt_file toy stored none (codes "uploads") (codes "j1") ≡ (some secret, none))
decrypt_file-encrypt_file_example =
    decrypt_file-encrypt_file toy nonces toy-IsAead nonces_12 secret none none (codes "uploads")
      (codes "j1")

decrypt_file_lem_example :
    Decrypted toy
      (some secret)
      none
      (codes "uploads")
      (codes "j1")
      (decrypt_file toy (some secret) none (codes "uploads") (codes "j1"))
decrypt_file_lem_example = decrypt_file_lem toy (some secret) none (codes "uploads") (codes "j1")

loops_end_example :
    Ends (encrypt_bytes toy nonces secret (codes "uploads") (codes "j1"))
    × Ends (decrypt_bytes toy secret (codes "uploads") (codes "j1"))
loops_end_example = loops_end toy nonces secret (codes "uploads") (codes "j1")

cut_accepted_example :
    (cut : Bytes) × (rest : Bytes) × (encrypt_bytes toy nonces secret (codes "uploads") (codes "j1")
      ≡ ok (cut ++ rest))
    × (decrypt_bytes toy cut (codes "uploads") (codes "j1") ≡ ok [])
cut_accepted_example =
    cut_accepted toy nonces toy-IsAead nonces_12 0 [] secret (codes "uploads") (codes "j1")
      (omega arith)
