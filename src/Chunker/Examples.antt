-- ===== src/Chunker/Examples.antt =====
-- 25 seconds in chunks of ten, with an overlap of one second.
use dubbing_pipeline.Base.{ℕ, ◌+◌, ◌<◌, ◌≤◌, ◌≡◌, refl, [], ◌∷◌}
use dubbing_pipeline.Chunker.Split.{
  chunks_from, split_audio_to_chunks, chunk_length, overlap_length,
}
use dubbing_pipeline.Chunker.Cover.{Covers, IsSplit, split_audio_to_chunks_lem}

three :
    split_audio_to_chunks 250000 10000 1000
    ≡ record { idx = 1; start_s = 0; end_s = 100000 }
      ∷ record { idx = 2; start_s = 90000; end_s = 190000 }
      ∷ record { idx = 3; start_s = 180000; end_s = 250000 }
      ∷ []
unfolding split_audio_to_chunks chunk_length overlap_length
three = refl

split_audio_to_chunks_example :
    let chunks = split_audio_to_chunks 250000 10000 1000 in
    IsSplit 250000 (chunk_length 10000) (overlap_length 10000 1000) 0 0 chunks
    × ((t : ℕ) → t + 10 < 250000 → Covers t chunks)
    × ((fuel : ℕ)
        → 0 < 250000
        → 250000 ≤ fuel
        → chunks_from fuel 250000 (chunk_length 10000) (overlap_length 10000 1000) 0 0 ≡ chunks)
split_audio_to_chunks_example = split_audio_to_chunks_lem 250000 10000 1000
