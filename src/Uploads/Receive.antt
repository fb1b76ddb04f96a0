-- ===== src/Uploads/Receive.antt =====
-- What a session of src/dubbing_pipeline/web/routes/uploads.py holds after any calls of
-- `uploads_chunk`.
use native.Mathlib.Nat.{mul-le-mul_right, suc-mul}
use native.Mathlib.Decide.{dec_lt}
use dubbing_pipeline.Base.{
  ℕ, suc, ◌+◌, ◌*◌, ◌≤◌, ◌<◌, ◌≡◌, refl, ap, ◌∙◌, ◌⊎◌, inl, inr, arith, Bool, true, false, Text,
  length, take, ◌==◌, if◌then◌else◌, none, some, text_eq_sound, lower, strip, Bool-cases, ==_iff,
  ok, Outcome-cases,
}
use dubbing_pipeline.Uploads.Part.{
  Bytes, write_at, slice, length-write_at, slice-write_at_self, slice-write_at_before,
  drop-write_at,
}
use dubbing_pipeline.Uploads.Plan.{
  Chunk, lookup, lookup-set, sum_sizes, total_chunks, expected_chunk_size, chunk_bounds,
}
use dubbing_pipeline.Uploads.Session.{
  Result, Upload, Session, Request, sha_of, check_chunk, is_same, bytes_of, Answer, store_chunk,
  after_checks, late_chunk, uploads_chunk, init, fresh,
}

-- A chunk as the record has it, and its bytes in the file.
abbrev pub Stored : (Bytes → Text) → Upload → Bytes → ℕ → Chunk → Type 0
Stored sha256 u file i c =
    (i < total_chunks u.total_bytes u.chunk_bytes)
    × (c.offset ≡ i * u.chunk_bytes)
    × (c.size ≡ expected_chunk_size i u.total_bytes u.chunk_bytes)
    × (c.offset + c.size ≤ length file)
    × (sha256 (slice c.offset c.size file) ≡ c.sha256)

-- Every chunk that counts as received stands in the part file, at its place, in its size, and with its
-- checksum; the file is no longer than the upload.
pub record IsValid (sha256 : Bytes → Text) (s : Session) : Type 0 where
  pub sized : 0 < s.upload.total_bytes
  pub chunked : 0 < s.upload.chunk_bytes
  pub kept :
      (i : ℕ) (c : Chunk)
      → lookup i s.upload.received ≡ some c
      → Stored sha256 (s.upload) (bytes_of s.part_file) i c
  pub counted : s.upload.received_bytes ≡ sum_sizes s.upload.received
  pub within : length (bytes_of s.part_file) ≤ s.upload.total_bytes

-- What has been checked of a chunk before it is written.
abbrev pub Checked : (Bytes → Text) → Upload → Request → ℕ → ℕ → Type 0
Checked sha256 u r idx offset =
    (idx < total_chunks u.total_bytes u.chunk_bytes)
    × (offset ≡ idx * u.chunk_bytes)
    × (length r.body ≡ expected_chunk_size idx u.total_bytes u.chunk_bytes)
    × (sha256 r.body ≡ sha_of r)
    × (offset + length r.body ≤ u.total_bytes)

pub check_chunk-Checked :
    (sha256 : Bytes → Text) (u : Upload) (r : Request) (idx offset : ℕ)
    → check_chunk sha256 u r ≡ ok (idx, offset)
    → Checked sha256 u r idx offset
unfolding check_chunk
check_chunk-Checked sha256 u r idx offset e =
    ground (arith, text_eq_sound (sha256 r.body) (sha_of r))

module _ (sha256 : Bytes → Text) (s : Session) (r : Request) (idx offset : ℕ)
    (checked : Checked sha256 (s.upload) r idx offset) (valid : IsValid sha256 s) where
  abbrev file : Bytes
  file = bytes_of s.part_file

  abbrev written : Bytes
  written = write_at offset r.body file

  abbrev new_chunk : Chunk
  new_chunk = record { offset = offset; size = length r.body; sha256 = sha_of r }

  new-Stored : Stored sha256 (s.upload) written idx new_chunk
  new-Stored =
      let grown = length-write_at offset r.body file in
      (
        checked.0,
        checked.1,
        checked.2,
        omega arith,
        rw (slice-write_at_self offset r.body file) (checked.3),
      )

  -- two chunks at different places do not overlap
  apart :
      (i : ℕ) (c : Chunk)
      → (i ≡ idx → ⊥)
      → Stored sha256 (s.upload) file i c
      → (c.offset + c.size ≤ offset) ⊎ (offset + length r.body ≤ c.offset)
  apart i c other st =
      let here =
        chunk_bounds idx s.upload.total_bytes s.upload.chunk_bytes valid.chunked (checked.0) in
      let there = chunk_bounds i s.upload.total_bytes s.upload.chunk_bytes valid.chunked (st.0) in
      elim (dec_lt i idx) [
        | yes p ↦
            let step : suc i * s.upload.chunk_bytes ≤ idx * s.upload.chunk_bytes =
              mul-le-mul_right _ p in
            inl (omega (arith, suc-mul i s.upload.chunk_bytes))
        | no p ↦
            let past : suc idx ≤ i = below i idx other p in
            let step : suc idx * s.upload.chunk_bytes ≤ i * s.upload.chunk_bytes =
              mul-le-mul_right _ past in
            inr (omega (arith, suc-mul idx s.upload.chunk_bytes))
      ]
    where
      below : (i idx : ℕ) → (i ≡ idx → ⊥) → ¬ (i < idx) → idx < i
      below i idx other p = ground arith

  old-Stored :
      (i : ℕ) (c : Chunk)
      → (i ≡ idx → ⊥)
      → Stored sha256 (s.upload) file i c
      → Stored sha256 (s.upload) written i c
  old-Stored i c other st =
      let grown = length-write_at offset r.body file in
      (st.0, st.1, st.2, omega arith, ap sha256 (same_bytes (apart i c other st)) ∙ st.4)
    where
      same_bytes :
          (c.offset + c.size ≤ offset) ⊎ (offset + length r.body ≤ c.offset)
          → slice c.offset c.size written ≡ slice c.offset c.size file
      same_bytes (inl before) =
          slice-write_at_before c.offset c.size offset r.body file before (st.3)
      same_bytes (inr behind) = ap (take c.size) (drop-write_at c.offset offset r.body file behind)

  store_chunk-IsValid : IsValid sha256 (store_chunk s idx offset (sha_of r) r.body).0
  unfolding store_chunk
  store_chunk-IsValid =
      elim (Bool-cases (is_same (lookup idx s.upload.received) offset (sha_of r) r.body)) [
        | inl same ↦ rw same valid
        | inr new ↦ rw new (record {
          sized = valid.sized;
          chunked = valid.chunked;
          kept = λ i c e. kept_after i c (rw (lookup-set idx i new_chunk s.upload.received) at e);
          counted = refl;
          within = let grown = length-write_at offset r.body file in omega (arith, valid.within);
        })
      ]
    where
      the_new : (c : Chunk) → some new_chunk ≡ some c → new_chunk ≡ c
      the_new c e = cc

      differ : (i : ℕ) → (idx == i) ≡ false → i ≡ idx → ⊥
      differ i e same = ground arith

      kept_after :
          (i : ℕ) (c : Chunk)
          → (if idx == i then some new_chunk else lookup i s.upload.received) ≡ some c
          → Stored sha256 (s.upload) written i c
      kept_after i c e = elim (Bool-cases (idx == i)) [
        | inl same ↦
            let found : new_chunk ≡ c = the_new c (rw same at e) in
            rw (← found, ← (==_iff idx i).0 same) new-Stored
        | inr other ↦ old-Stored i c (differ i other) (valid.kept i c (rw other at e))
      ]

either-IsValid :
    (sha256 : Bytes → Text) (b : Bool) (x y : Session × Result Answer)
    → IsValid sha256 x.0
    → IsValid sha256 y.0
    → IsValid sha256 (if b then x else y).0
either-IsValid sha256 true x y v w = v
either-IsValid sha256 false x y v w = w

-- Any call of `uploads_chunk`, accepted or refused, new or repeated, keeps a session valid.
pub late_chunk-IsValid :
    (sha256 : Bytes → Text) (s : Session) (r : Request)
    → IsValid sha256 s
    → IsValid sha256 (late_chunk sha256 s r).0
unfolding late_chunk after_checks
late_chunk-IsValid sha256 s r valid = elim (Outcome-cases (check_chunk sha256 (s.upload) r)) [
  | inl (place, e) ↦ rw e (
      store_chunk-IsValid sha256 s r place.0 place.1
        (check_chunk-Checked sha256 (s.upload) r place.0 place.1 e) valid)
  | inr (p, e) ↦ rw e valid
]

pub uploads_chunk-IsValid :
    (sha256 : Bytes → Text) (s : Session) (r : Request)
    → IsValid sha256 s
    → IsValid sha256 (uploads_chunk sha256 s r).0
unfolding uploads_chunk
uploads_chunk-IsValid sha256 s r valid =
    either-IsValid sha256 s.upload.completed _ _ valid (late_chunk-IsValid sha256 s r valid)

init-fresh :
    (total setting : ℕ) (within_quota : Bool) (expected : Text) (s : Session)
    → init total within_quota setting expected ≡ ok s
    → (0 < total) × (s ≡ fresh total setting (lower (strip expected)))
unfolding init
init-fresh total setting within_quota expected s e = ground arith

fresh-IsValid :
    (sha256 : Bytes → Text) (total setting : ℕ) (sha : Text)
    → 0 < total
    → IsValid sha256 (fresh total setting sha)
unfolding fresh lookup sum_sizes
fresh-IsValid sha256 total setting sha pos = record {
  sized = pos;
  chunked = omega arith;
  kept = λ i c e. absurd (nothing c e);
  counted = refl;
  within = omega arith;
}
  where
    nothing : (c : Chunk) → none ≡ some c → ⊥
    nothing c e = cc

pub init-IsValid :
    (sha256 : Bytes → Text) (total setting : ℕ) (within_quota : Bool) (expected : Text)
    (s : Session)
    → init total within_quota setting expected ≡ ok s
    → IsValid sha256 s
init-IsValid sha256 total setting within_quota expected s e =
    let (pos, is_fresh) = init-fresh total setting within_quota expected s e in
    rw is_fresh (fresh-IsValid sha256 total setting (lower (strip expected)) pos)
