-- ===== src/Smoothing/Examples.antt =====
-- A short turn of Bob between two of Ann.
use mathlib.Core.List.{Perm}
use dubbing_pipeline.Base.{ℕ, ◌≡◌, refl, true, List, [], ◌∷◌, All, none, Text, codes, text_eq}
use dubbing_pipeline.Smoothing.{
  Utterance, Scene, insert_by_time, sort_by_time, scene_index, merges, smooth_from, smooth_sorted,
  smooth_speakers_in_scenes,
}
use dubbing_pipeline.Smoothing.Report.{InOrder, SameTurns, changes_between, speaks, smooth_lem}

abbrev turn : ℕ → ℕ → Text → Utterance
turn start end_ speaker = record {
  start = start;
  end_ = end_;
  speaker = speaker;
  speaker_original = none;
  conf = none;
}

abbrev one_scene : List Scene
one_scene = record { start = 0; end_ = 60000 } ∷ []

abbrev talk : List Utterance
talk = turn 2500 4000 (codes "ann") ∷ turn 0 2000 (codes "ann") ∷ turn 2000 2400 (codes "bob") ∷ []

bob_merged :
    (smooth_speakers_in_scenes one_scene 600 400 talk).1
    ≡ record { start = 2000; end_ = 2400; speaker_from = codes "bob"; speaker_to = codes "ann" }
      ∷ []
unfolding smooth_speakers_in_scenes smooth_sorted smooth_from merges sort_by_time insert_by_time
    scene_index text_eq
bob_merged = refl

-- Over a cut nobody is merged.
cut_respected :
    (smooth_speakers_in_scenes
      (record { start = 0; end_ = 2450 } ∷ record { start = 2450; end_ = 60000 } ∷ [])
      600
      400
      talk).1
    ≡ []
unfolding smooth_speakers_in_scenes smooth_sorted smooth_from merges sort_by_time insert_by_time
    scene_index text_eq
cut_respected = refl

smooth_example :
    let sorted = sort_by_time talk in
    let r = smooth_speakers_in_scenes one_scene 600 400 talk in
    Perm sorted talk
    × InOrder sorted
    × SameTurns sorted r.0
    × All (λ b. speaks b.speaker sorted ≡ true) r.0
    × (r.1 ≡ changes_between sorted r.0)
smooth_example = smooth_lem one_scene 600 400 talk
