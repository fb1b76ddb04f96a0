-- ===== src/Checkpoints/History.antt =====
-- What `stage_is_done` of src/dubbing_pipeline/jobs/checkpoint.py answers after any calls that write the
-- checkpoint of a job.
use dubbing_pipeline.Base.{
  ℕ, Option, none, some, Text, List, [], ◌∷◌, ◌≡◌, refl, ap, ◌∙◌, inl, inr, Dict, get,
  if◌then◌else◌, text_eq, text_eq_sound, Bool-cases, get-put,
}
use dubbing_pipeline.Checkpoints.Stages.{
  Disk, Artifact, Entry, Checkpoint, init_ckpt, entry_or_empty, put_entry, started_entry,
  skipped_entry, finished_entry, record_stage_started, record_stage_skipped, write_ckpt, records,
}

-- A call that writes the checkpoint; `write_ckpt` finds the files of the disk at its time.
pub data Call : Type 0 where
  start : Text → ℕ → Option (Dict Text) → Call
  skip : Text → Text → ℕ → Option (Dict Text) → Call
  write : Disk → Text → List (Text × Text) → ℕ → Option (Dict Text) → Call

-- The artifacts of a stage that is marked as done.
unfoldable pub done_artifacts : Option Entry → Option (Dict Artifact)
done_artifacts none = none
done_artifacts (some e) = if e.is_done then some e.artifacts else none

unfoldable pub done_of : Option Checkpoint → Text → Option (Dict Artifact)
unfolding done_artifacts
done_of none stage = none
done_of (some c) stage = done_artifacts (get c.stages stage)

-- The disk and the artifacts of the last call of `write_ckpt` for a stage.
unfoldable pub last_written :
    Text → Option (Disk × List (Text × Text)) → List Call → Option (Disk × List (Text × Text))
last_written stage before [] = before
last_written stage before (start s now meta ∷ calls) = last_written stage before calls
last_written stage before (skip s reason now meta ∷ calls) = last_written stage before calls
last_written stage before (write disk s artifacts now meta ∷ calls) =
    last_written stage (if text_eq s stage then some (disk, artifacts) else before) calls

done_of-init_ckpt :
    (job_id : Text) (c : Option Checkpoint) (k : Text)
    → done_artifacts (get (init_ckpt job_id c).stages k) ≡ done_of c k
unfolding init_ckpt done_of get
done_of-init_ckpt job_id none k = refl
done_of-init_ckpt job_id (some c) k = refl

done_artifacts_kept :
    (fields : Entry → Entry)
    → ((e : Entry) → done_artifacts (some (fields e)) ≡ done_artifacts (some e))
    → (o : Option Entry) → done_artifacts (some (fields (entry_or_empty o))) ≡ done_artifacts o
unfolding done_artifacts
done_artifacts_kept fields same none = same (entry_or_empty none)
done_artifacts_kept fields same (some e) = same e

-- An entry that is changed elsewhere leaves what is done.
put_entry_kept :
    (c : Checkpoint) (stage k : Text) (now : ℕ) (fields : Entry → Entry)
    → ((e : Entry) → done_artifacts (some (fields e)) ≡ done_artifacts (some e))
    → done_artifacts (get (put_entry c stage now fields).stages k) ≡ done_artifacts (get c.stages k)
unfolding put_entry
put_entry_kept c stage k now fields same =
    ap done_artifacts (get-put c.stages stage k (fields (entry_or_empty (get c.stages stage))))
    ∙ elim (Bool-cases (text_eq stage k)) [
      | inl e ↦ rw e (
          done_artifacts_kept fields same (get c.stages stage)
          ∙ ap (λ s. done_artifacts (get c.stages s)) (text_eq_sound stage k e))
      | inr e ↦ rw e refl
    ]

module _ (sha : List ℕ → Text) (job_id : Text) where
  unfoldable pub perform : Option Checkpoint → Call → Checkpoint
  perform c (start stage now meta) = record_stage_started job_id stage now meta c
  perform c (skip stage reason now meta) = record_stage_skipped job_id stage reason now meta c
  perform c (write disk stage artifacts now meta) =
      write_ckpt sha disk job_id stage artifacts now meta c

  unfoldable pub perform_all : Option Checkpoint → List Call → Option Checkpoint
  unfolding perform
  perform_all c [] = c
  perform_all c (call ∷ calls) = perform_all (some (perform c call)) calls

  unfoldable pub recorded : Option (Disk × List (Text × Text)) → Option (Dict Artifact)
  recorded none = none
  recorded (some (disk, artifacts)) = some (records sha disk artifacts)

  write_ckpt-done_of :
      (disk : Disk) (stage k : Text) (artifacts : List (Text × Text)) (now : ℕ)
      (meta : Option (Dict Text)) (c : Option Checkpoint)
      → done_of (some (write_ckpt sha disk job_id stage artifacts now meta c)) k
        ≡ (if text_eq stage k then some (records sha disk artifacts) else done_of c k)
  unfolding write_ckpt put_entry finished_entry done_of
  write_ckpt-done_of disk stage k artifacts now meta c =
      ap done_artifacts (
        get-put (init_ckpt job_id c).stages stage k (
          finished_entry now (records sha disk artifacts) meta
            (entry_or_empty (get (init_ckpt job_id c).stages stage))))
      ∙ elim (Bool-cases (text_eq stage k)) [
        | inl e ↦ rw e refl
        | inr e ↦ rw e (done_of-init_ckpt job_id c k)
      ]

  started_kept :
      (c : Option Checkpoint) (s k : Text) (now : ℕ) (meta : Option (Dict Text))
      → done_of (some (record_stage_started job_id s now meta c)) k ≡ done_of c k
  unfolding record_stage_started done_of started_entry done_artifacts
  started_kept c s k now meta =
      put_entry_kept (init_ckpt job_id c) s k now (started_entry now meta) (λ e. refl)
      ∙ done_of-init_ckpt job_id c k

  skipped_kept :
      (c : Option Checkpoint) (s k reason : Text) (now : ℕ) (meta : Option (Dict Text))
      → done_of (some (record_stage_skipped job_id s reason now meta c)) k ≡ done_of c k
  unfolding record_stage_skipped done_of skipped_entry done_artifacts
  skipped_kept c s k reason now meta =
      put_entry_kept (init_ckpt job_id c) s k now (skipped_entry now reason meta) (λ e. refl)
      ∙ done_of-init_ckpt job_id c k

  pub perform_all-done_of :
      (c : Option Checkpoint) (before : Option (Disk × List (Text × Text))) (k : Text)
      (calls : List Call)
      → done_of c k ≡ recorded before
      → done_of (perform_all c calls) k ≡ recorded (last_written k before calls)
  unfolding perform_all perform last_written recorded
  perform_all-done_of c before k [] h = h
  perform_all-done_of c before k (start s now meta ∷ calls) h =
      perform_all-done_of (some (record_stage_started job_id s now meta c)) before k calls
        (started_kept c s k now meta ∙ h)
  perform_all-done_of c before k (skip s reason now meta ∷ calls) h =
      perform_all-done_of (some (record_stage_skipped job_id s reason now meta c)) before k calls
        (skipped_kept c s k reason now meta ∙ h)
  perform_all-done_of c before k (write disk s artifacts now meta ∷ calls) h =
      perform_all-done_of (some (write_ckpt sha disk job_id s artifacts now meta c))
        (if text_eq s k then some (disk, artifacts) else before) k calls
        (write_ckpt-done_of disk s k artifacts now meta c
          ∙ elim (Bool-cases (text_eq s k)) [ inl e ↦ rw e refl | inr e ↦ rw e h ])
