-- ===== src/Chunker/Split.antt =====
-- `split_audio_to_chunks` of src/dubbing_pipeline/streaming/chunker.py. All times are tenths of a
-- millisecond, so that nine tenths of a whole millisecond are exact; the arguments in seconds are given as
-- whole milliseconds. The duration, which ffprobe reads, is an argument; the files are not modelled.
use dubbing_pipeline.Base.{
  ℕ, zero, suc, ◌+◌, ◌-◌, ◌*◌, Bool, true, false, List, [], ◌∷◌, ltb, leb, ◌==◌, if◌then◌else◌, min,
  max,
}

pub record Chunk : Type 0 where
  pub idx : ℕ
  pub start_s : ℕ
  pub end_s : ℕ

-- max(2.0, chunk_seconds)
unfoldable pub chunk_length : ℕ → ℕ
chunk_length chunk_ms = 10 * max 2000 chunk_ms

-- max(0.0, min(overlap_seconds, cs * 0.9))
unfoldable pub overlap_length : ℕ → ℕ → ℕ
overlap_length chunk_ms overlap_ms = min (10 * overlap_ms) (9 * max 2000 chunk_ms)

-- One pass: whether the loop goes on, whether its chunk is the last, the chunk and those after it.
abbrev pub pass : Bool → Bool → Chunk → List Chunk → List Chunk
pass false is_last c rest = []
pass true true c rest = c ∷ []
pass true false c rest = c ∷ rest

-- The loop from a start and a number on, under fuel.
unfoldable pub chunks_from : ℕ → ℕ → ℕ → ℕ → ℕ → ℕ → List Chunk
chunks_from zero total cs ov start idx = []
chunks_from (suc fuel) total cs ov start idx =
    let stop = min total (start + cs) in
    pass (ltb (start + 10) total) (leb total stop)
      (record { idx = idx + 1; start_s = start; end_s = stop })
      (chunks_from fuel total cs ov (stop - ov) (idx + 1))

-- `split_audio_to_chunks`
unfoldable pub split_audio_to_chunks : ℕ → ℕ → ℕ → List Chunk
unfolding chunks_from
split_audio_to_chunks total chunk_ms overlap_ms =
    if total == 0
    then []
    else chunks_from total total (chunk_length chunk_ms) (overlap_length chunk_ms overlap_ms) 0 0
