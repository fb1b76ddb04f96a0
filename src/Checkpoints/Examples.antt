-- ===== src/Checkpoints/Examples.antt =====
-- A stage that is started, finished and started again, with a sound file that stays and one that is replaced.
use dubbing_pipeline.Base.{
  ℕ, ◌≡◌, ◌↔◌, refl, true, false, List, [], ◌∷◌, none, some, Text, codes, get, put, text_eq,
  is_empty,
}
use dubbing_pipeline.Checkpoints.Stages.{
  record_stage_skipped, init_ckpt, started_entry, finished_entry, skipped_entry, Disk, records,
  stage_is_done, record_stage_started, write_ckpt,
}
use dubbing_pipeline.Checkpoints.History.{Call, start, skip, write, last_written, perform_all}
use dubbing_pipeline.Checkpoints.Done.{IsAnyThere, IsUnchanged, stage_is_done_lem}

-- A digest that tells all contents apart.
abbrev digest : List ℕ → Text
digest content = 35 ∷ content

abbrev digest-filled : (content : List ℕ) → is_empty (digest content) ≡ false
digest-filled content = refl

abbrev sound : Text
sound = codes "audio.wav"

abbrev extracted : Disk
extracted = (sound, record { content = 1 ∷ 2 ∷ []; mtime = 10 }) ∷ []

abbrev replaced : Disk
replaced = (sound, record { content = 1 ∷ 3 ∷ []; mtime = 20 }) ∷ []

abbrev calls : List Call
calls =
    start (codes "audio") 5 none
    ∷ write extracted (codes "audio") ((codes "wav", sound) ∷ (codes "log", codes "none.txt") ∷ [])
        10 none
    ∷ start (codes "audio") 15 none
    ∷ skip (codes "mix") (codes "no sound") 16 none
    ∷ []

still_done :
    stage_is_done digest extracted (perform_all digest (codes "j") none calls) (codes "audio")
    ≡ true
unfolding perform_all stage_is_done get put text_eq record_stage_skipped init_ckpt
    record_stage_started write_ckpt started_entry finished_entry records skipped_entry
still_done = refl

not_done :
    stage_is_done digest replaced (perform_all digest (codes "j") none calls) (codes "audio")
    ≡ false
unfolding perform_all stage_is_done get put text_eq record_stage_skipped init_ckpt
    record_stage_started write_ckpt started_entry finished_entry records skipped_entry
not_done = refl

skipped_not_done :
    stage_is_done digest extracted (perform_all digest (codes "j") none calls) (codes "mix") ≡ false
unfolding perform_all stage_is_done get put text_eq record_stage_skipped init_ckpt
    record_stage_started write_ckpt started_entry finished_entry records skipped_entry
skipped_not_done = refl

stage_is_done_example :
    (stage_is_done digest replaced (perform_all digest (codes "j") none calls) (codes "audio")
      ≡ true)
    ↔ ((before : Disk) × (arts : List (Text × Text)) × (last_written (codes "audio") none calls
          ≡ some (before, arts))
        × IsAnyThere before arts
        × IsUnchanged digest before replaced arts)
stage_is_done_example =
    stage_is_done_lem digest digest-filled (codes "j") calls replaced (codes "audio")
