-- ===== src/Chunker/Cover.antt =====
-- That the chunks of src/dubbing_pipeline/streaming/chunker.py cover the track, and how they lie.
use dubbing_pipeline.Base.{
  ℕ, zero, suc, ◌+◌, ◌-◌, ◌≤◌, ◌<◌, ◌≡◌, refl, sym, ap, arith, Bool, true, false, List, [], ◌∷◌,
  ltb, leb, ◌==◌, min, ◌⊎◌, inl, inr, Bool-cases,
}
use dubbing_pipeline.Chunker.Split.{
  Chunk, pass, chunk_length, overlap_length, chunks_from, split_audio_to_chunks,
}

unfoldable pub Covers : ℕ → List Chunk → Type 0
Covers t [] = ⊥
Covers t (c ∷ chunks) = ((c.start_s ≤ t) × (t < c.end_s)) ⊎ Covers t chunks

-- Chunks that follow number `idx`: each starts where the overlap with the one before it begins, has at
-- most the length `cs` and lies within the track.
unfoldable pub IsSplit : ℕ → ℕ → ℕ → ℕ → ℕ → List Chunk → Type 0
IsSplit total cs ov start idx [] = Unit
IsSplit total cs ov start idx (c ∷ chunks) =
    (c.idx ≡ idx + 1)
    × (c.start_s ≡ start)
    × (start < c.end_s)
    × (c.end_s ≤ start + cs)
    × (c.end_s ≤ total)
    × IsSplit total cs ov (c.end_s - ov) (idx + 1) chunks

chunks_from-IsSplit :
    (fuel total cs ov start idx : ℕ)
    → ov < cs
    → IsSplit total cs ov start idx (chunks_from fuel total cs ov start idx)
unfolding chunks_from IsSplit
chunks_from-IsSplit zero total cs ov start idx h = tt
chunks_from-IsSplit (suc fuel) total cs ov start idx h =
    by_tests (ltb (start + 10) total) (leb total (min total (start + cs))) refl
      (chunks_from-IsSplit fuel total cs ov (min total (start + cs) - ov) (idx + 1) h)
  where
    by_tests :
        (goes is_last : Bool)
        → ltb (start + 10) total ≡ goes
        → IsSplit total cs ov
            (min total (start + cs) - ov)
            (idx + 1)
            (chunks_from fuel total cs ov (min total (start + cs) - ov) (idx + 1))
        → IsSplit total cs ov start idx (
            pass goes is_last
              (record { idx = idx + 1; start_s = start; end_s = min total (start + cs) })
              (chunks_from fuel total cs ov (min total (start + cs) - ov) (idx + 1)))
    by_tests false is_last e rest = tt
    by_tests true true e rest = (refl, refl, ground (arith, e), omega arith, omega arith, tt)
    by_tests true false e rest = (refl, refl, ground (arith, e), omega arith, omega arith, rest)

chunks_from-Covers :
    (fuel total cs ov start idx t : ℕ)
    → ov < cs
    → total ≤ start + fuel
    → start ≤ t
    → t + 10 < total
    → Covers t (chunks_from fuel total cs ov start idx)
unfolding chunks_from Covers
chunks_from-Covers zero total cs ov start idx t h f a b = absurd (omega arith)
chunks_from-Covers (suc fuel) total cs ov start idx t h f a b =
    by_tests (ltb (start + 10) total) (leb total (min total (start + cs))) refl refl (λ long later.
      chunks_from-Covers fuel total cs ov (min total (start + cs) - ov) (idx + 1) t h
        (omega (arith, long)) (omega (arith, later)) b)
  where
    by_tests :
        (goes is_last : Bool)
        → ltb (start + 10) total ≡ goes
        → leb total (min total (start + cs)) ≡ is_last
        → (start + cs < total
            → start + cs ≤ t
            → Covers t (chunks_from fuel total cs ov (min total (start + cs) - ov) (idx + 1)))
        → Covers t (
            pass goes is_last
              (record { idx = idx + 1; start_s = start; end_s = min total (start + cs) })
              (chunks_from fuel total cs ov (min total (start + cs) - ov) (idx + 1)))
    by_tests false is_last e l rest = absurd (ground (arith, e))
    by_tests true true e l rest = inl (a, ground (arith, l))
    by_tests true false e l rest = elim (Bool-cases (leb (start + cs) t)) [
      | inl later ↦ inr (rest (ground (arith, l)) (ground (arith, later)))
      | inr within ↦ inl (a, ground (arith, within, l))
    ]

none_left :
    (fuel total cs ov start idx : ℕ) → total ≤ start → chunks_from fuel total cs ov start idx ≡ []
unfolding chunks_from
none_left zero total cs ov start idx h = refl
none_left (suc fuel) total cs ov start idx h =
    let over : ltb (start + 10) total ≡ false = ground arith in rw over refl

-- Any two amounts of fuel that are enough give the same chunks.
chunks_from-fuel :
    (fuel other total cs ov start idx : ℕ)
    → ov < cs
    → total ≤ start + fuel
    → total ≤ start + other
    → chunks_from fuel total cs ov start idx ≡ chunks_from other total cs ov start idx
unfolding chunks_from
chunks_from-fuel zero other total cs ov start idx h f g =
    sym (none_left other total cs ov start idx (omega arith))
chunks_from-fuel (suc fuel) zero total cs ov start idx h f g =
    none_left (suc fuel) total cs ov start idx (omega arith)
chunks_from-fuel (suc fuel) (suc other) total cs ov start idx h f g =
    by_tests (ltb (start + 10) total) (leb total (min total (start + cs))) refl (λ long.
      chunks_from-fuel fuel other total cs ov (min total (start + cs) - ov) (idx + 1) h
        (omega (arith, long)) (omega (arith, long)))
  where
    by_tests :
        (goes is_last : Bool)
        → leb total (min total (start + cs)) ≡ is_last
        → (start + cs < total
            → chunks_from fuel total cs ov (min total (start + cs) - ov) (idx + 1)
              ≡ chunks_from other total cs ov (min total (start + cs) - ov) (idx + 1))
        → pass goes is_last
            (record { idx = idx + 1; start_s = start; end_s = min total (start + cs) })
            (chunks_from fuel total cs ov (min total (start + cs) - ov) (idx + 1))
          ≡ pass goes is_last
              (record { idx = idx + 1; start_s = start; end_s = min total (start + cs) })
              (chunks_from other total cs ov (min total (start + cs) - ov) (idx + 1))
    by_tests false is_last e rest = refl
    by_tests true true e rest = refl
    by_tests true false e rest =
        ap
          (λ chunks.
            record { idx = idx + 1; start_s = start; end_s = min total (start + cs) } ∷ chunks)
          (rest (ground (arith, e)))

lengths : (chunk_ms overlap_ms : ℕ) → overlap_length chunk_ms overlap_ms < chunk_length chunk_ms
unfolding overlap_length chunk_length
lengths chunk_ms overlap_ms = omega arith

-- For any duration and any two settings: the chunks are numbered from 1 on, each but the first starts
-- the overlap before the end of the one before it, none is empty, longer than the set length (at least
-- two seconds) or outside the track, every instant but the last millisecond lies in a chunk, and any
-- bound on the passes of the loop that is at least the duration gives these chunks.
pub split_audio_to_chunks_lem :
    (total chunk_ms overlap_ms : ℕ)
    → let chunks = split_audio_to_chunks total chunk_ms overlap_ms in
      IsSplit total (chunk_length chunk_ms) (overlap_length chunk_ms overlap_ms) 0 0 chunks
      × ((t : ℕ) → t + 10 < total → Covers t chunks)
      × ((fuel : ℕ)
          → 0 < total
          → total ≤ fuel
          → chunks_from fuel total (chunk_length chunk_ms) (overlap_length chunk_ms overlap_ms) 0 0
            ≡ chunks)
unfolding split_audio_to_chunks IsSplit
split_audio_to_chunks_lem total chunk_ms overlap_ms =
    let cs = chunk_length chunk_ms in
    let ov = overlap_length chunk_ms overlap_ms in
    let short = lengths chunk_ms overlap_ms in
    elim (Bool-cases (total == 0)) [
      | inl e ↦ rw e (
        tt,
        (λ t b. absurd (ground (arith, e))),
        (λ fuel some_left enough. absurd (ground (arith, e))),
      )
      | inr e ↦ rw e (
        chunks_from-IsSplit total total cs ov 0 0 short,
        (λ t b. chunks_from-Covers total total cs ov 0 0 t short (omega arith) (omega arith) b),
        (λ fuel some_left enough.
            chunks_from-fuel fuel total total cs ov 0 0 short (omega (arith, enough))
              (omega arith)),
      )
    ]
