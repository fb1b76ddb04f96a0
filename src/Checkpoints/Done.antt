-- ===== src/Checkpoints/Done.antt =====
-- When a stage is done for src/dubbing_pipeline/jobs/checkpoint.py, by the files of two times.
use dubbing_pipeline.Base.{
  ℕ, Bool, true, false, ◌&&◌, Option, none, some, Text, List, [], ◌∷◌, ◌≡◌, refl, ◌↔◌, ◌⊎◌, inl,
  inr, is_empty, is_some, Dict, get, text_eq, text_eq_iff, Bool-cases,
}
use dubbing_pipeline.Checkpoints.Stages.{
  File, Disk, Artifact, Entry, Checkpoint, artifact_record, records, is_valid, all_valid,
  artifacts_valid, entry_is_done, stage_is_done,
}
use dubbing_pipeline.Checkpoints.History.{
  Call, last_written, done_artifacts, done_of, recorded, perform_all, perform_all-done_of,
}

-- Whether one of the artifacts is on the disk.
unfoldable pub IsAnyThere : Disk → List (Text × Text) → Type 0
IsAnyThere disk [] = ⊥
IsAnyThere disk ((name, path) ∷ arts) = (is_some (get disk path) ≡ true) ⊎ IsAnyThere disk arts

and_parts : (a b : Bool) → a && b ≡ true → (a ≡ true) × (b ≡ true)
and_parts true b h = (refl, h)
and_parts false b h = absurd cc

has_entry : Dict Artifact → Bool
has_entry [] = false
has_entry (a ∷ arts) = true

module _ (sha : List ℕ → Text) where
  abbrev pub IsSame : Option File → Option File → Type 0
  IsSame none p = Unit
  IsSame (some f) none = ⊥
  IsSame (some f) (some g) = sha g.content ≡ sha f.content

  -- Whether each artifact that was on the disk before is there now, with the same digest.
  unfoldable pub IsUnchanged : Disk → Disk → List (Text × Text) → Type 0
  IsUnchanged before now [] = Unit
  IsUnchanged before now ((name, path) ∷ arts) =
      IsSame (get before path) (get now path) × IsUnchanged before now arts

  has_entry_iff :
      (disk : Disk) (arts : List (Text × Text))
      → (has_entry (records sha disk arts) ≡ true) ↔ IsAnyThere disk arts
  unfolding has_entry records IsAnyThere
  has_entry_iff disk [] = ((λ h. absurd cc), (λ h. absurd h))
  has_entry_iff disk ((name, path) ∷ arts) = by_file (get disk path) (has_entry_iff disk arts)
    where
      by_file :
          (o : Option File)
          → ((has_entry (records sha disk arts) ≡ true) ↔ IsAnyThere disk arts)
          → (has_entry (elim o [
            | none ↦ records sha disk arts
            | some f ↦ (name, artifact_record sha path f) ∷ records sha disk arts
          ])
              ≡ true)
            ↔ ((is_some o ≡ true) ⊎ IsAnyThere disk arts)
      by_file none (to, from) =
          ((λ h. inr (to h)), (λ h. elim h [ inl e ↦ absurd cc | inr there ↦ from there ]))
      by_file (some f) ih = ((λ h. inl refl), (λ h. refl))

  artifacts_valid_eq :
      (disk : Disk) (arts : Dict Artifact)
      → artifacts_valid sha disk arts ≡ has_entry arts && all_valid sha disk arts
  unfolding artifacts_valid has_entry
  artifacts_valid_eq disk [] = refl
  artifacts_valid_eq disk (a ∷ arts) = refl

  valid_of : Disk → Option (Dict Artifact) → Bool
  valid_of disk none = false
  valid_of disk (some arts) = artifacts_valid sha disk arts

  stage_is_done_eq :
      (disk : Disk) (c : Option Checkpoint) (stage : Text)
      → stage_is_done sha disk c stage ≡ valid_of disk (done_of c stage)
  unfolding stage_is_done entry_is_done valid_of done_of done_artifacts
  stage_is_done_eq disk none stage = refl
  stage_is_done_eq disk (some c) stage = by_entry (get c.stages stage)
    where
      by_entry : (o : Option Entry) → entry_is_done sha disk o ≡ valid_of disk (done_artifacts o)
      by_entry none = refl
      by_entry (some e) = elim (Bool-cases e.is_done) [ inl e1 ↦ rw e1 refl | inr e1 ↦ rw e1 refl ]

  module _ (digests : (c : List ℕ) → is_empty (sha c) ≡ false) where
    all_valid_iff :
        (before now : Disk) (arts : List (Text × Text))
        → (all_valid sha now (records sha before arts) ≡ true) ↔ IsUnchanged before now arts
    unfolding all_valid records IsUnchanged is_valid
    all_valid_iff before now [] = ((λ h. tt), (λ h. refl))
    all_valid_iff before now ((name, path) ∷ arts) =
        by_files (get before path) (get now path) refl (all_valid_iff before now arts)
      where
        by_files :
            (o p : Option File)
            → get now path ≡ p
            → ((all_valid sha now (records sha before arts) ≡ true) ↔ IsUnchanged before now arts)
            → (all_valid sha now (elim o [
              | none ↦ records sha before arts
              | some f ↦ (name, artifact_record sha path f) ∷ records sha before arts
            ])
                ≡ true)
              ↔ (IsSame o p × IsUnchanged before now arts)
        by_files none p e (to, from) = ((λ h. (tt, to h)), (λ h. from h.1))
        by_files (some f) none e ih = rw e ((λ h. absurd cc), (λ h. absurd h.0))
        by_files (some f) (some g) e (to, from) =
            let (sound, complete) = text_eq_iff (sha g.content) (sha f.content) in
            rw (e, digests f.content)
              (
                (λ h.
                    let (same, rest) =
                      and_parts (text_eq (sha g.content) (sha f.content))
                        (all_valid sha now (records sha before arts)) h in
                    (sound same, to rest)),
                (λ h. rw (complete h.0, from h.1) refl),
              )

    artifacts_valid_iff :
        (before now : Disk) (arts : List (Text × Text))
        → (artifacts_valid sha now (records sha before arts) ≡ true)
          ↔ (IsAnyThere before arts × IsUnchanged before now arts)
    artifacts_valid_iff before now arts =
        let (has, there) = has_entry_iff before arts in
        let (to, from) = all_valid_iff before now arts in
        rw (artifacts_valid_eq now (records sha before arts)) (
          (λ h.
              let (some_there, valid) =
                and_parts (has_entry (records sha before arts))
                  (all_valid sha now (records sha before arts)) h in
              (has some_there, to valid)),
          (λ h. rw (there h.0, from h.1) refl),
        )

    -- After any calls for a job that has no checkpoint, a stage is done if and only if `write_ckpt` was
    -- called for it, and at the last such call at least one of its artifacts was on the disk, and each
    -- that was is there now with the same digest. Starting or skipping stages changes nothing of that,
    -- nor does a call for another stage. The digests of the hash are not empty.
    pub stage_is_done_lem :
        (job_id : Text) (calls : List Call) (now : Disk) (stage : Text)
        → (stage_is_done sha now (perform_all sha job_id none calls) stage ≡ true) ↔ (
            (before : Disk) × (arts : List (Text × Text)) × (last_written stage none calls
              ≡ some (before, arts))
            × IsAnyThere before arts
            × IsUnchanged before now arts)
    unfolding recorded done_of valid_of
    stage_is_done_lem job_id calls now stage =
        rw
          (
            stage_is_done_eq now (perform_all sha job_id none calls) stage,
            perform_all-done_of sha job_id none none stage calls refl,
          )
          (by_last (last_written stage none calls))
      where
        by_last :
            (w : Option (Disk × List (Text × Text)))
            → (valid_of now (recorded sha job_id w) ≡ true) ↔ (
                (before : Disk) × (arts : List (Text × Text)) × (w ≡ some (before, arts))
                × IsAnyThere before arts
                × IsUnchanged before now arts)
        by_last none = ((λ h. absurd cc), (λ h. let (b, a, same, there, rest) = h in absurd cc))
        by_last (some (before, arts)) =
            let (to, from) = artifacts_valid_iff before now arts in
            (
              (λ h. let (some_there, kept) = to h in (before, arts, refl, some_there, kept)),
              (λ h.
                  let (b, a, same, there, rest) = h in
                  let disks : before ≡ b = cc in
                  let lists : arts ≡ a = cc in from (rw (disks, lists) (there, rest))),
            )
