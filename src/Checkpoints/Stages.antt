-- ===== src/Checkpoints/Stages.antt =====
-- The functions of src/dubbing_pipeline/jobs/checkpoint.py. The file of the checkpoint is the value that JSON
-- gives back; one that is missing, or that cannot be read, is none. SHA-256 is a parameter.
use dubbing_pipeline.Base.{
  ℕ, ◌==◌, Bool, true, false, not, ◌&&◌, ◌||◌, Option, none, some, Text, List, [], ◌∷◌, ◌++◌,
  length, is_empty, Dict, get, put, if◌then◌else◌, text_eq, or_else, codes,
}

pub record File : Type 0 where
  pub content : List ℕ
  pub mtime : ℕ

-- The files of the disk, by path; no path is a directory.
abbrev pub Disk : Type 0
Disk = Dict File

pub record Artifact : Type 0 where
  pub path : Text
  pub sha256 : Text
  pub size : ℕ
  pub mtime : ℕ

pub data Status : Type 0 where
  started : Status
  skipped : Status
  done : Status

pub data Kind : Type 0 where
  stage_started : Kind
  stage_skipped : Text → Kind
  stage_finished : Kind

-- The entry of a stage. A key that is missing is none, false or empty.
pub record Entry : Type 0 where
  pub is_done : Bool
  pub done_at : Option ℕ
  pub artifacts : Dict Artifact
  pub meta : Dict Text
  pub started_at : Option ℕ
  pub skipped_at : Option ℕ
  pub skip_reason : Text
  pub status : Option Status
  pub events : List (Kind × ℕ)

-- The version, which is 1, is left out.
pub record Checkpoint : Type 0 where
  pub job_id : Text
  pub last_stage : Option Text
  pub updated_at : Option ℕ
  pub stages : Dict Entry

abbrev empty_entry : Entry
empty_entry = record {
  is_done = false;
  done_at = none;
  artifacts = [];
  meta = [];
  started_at = none;
  skipped_at = none;
  skip_reason = [];
  status = none;
  events = [];
}

-- `_init_ckpt`
unfoldable pub init_ckpt : Text → Option Checkpoint → Checkpoint
init_ckpt job_id none = record {
  job_id = job_id;
  last_stage = none;
  updated_at = none;
  stages = [];
}
init_ckpt job_id (some c) = record c { job_id = job_id }

abbrev pub entry_or_empty : Option Entry → Entry
entry_or_empty none = empty_entry
entry_or_empty (some e) = e

-- `_append_event`
abbrev append_event : Entry → Kind → ℕ → Entry
append_event e kind ts = record e { events = e.events ++ ((kind, ts) ∷ []) }

-- A time that Python takes for true.
abbrev truthy : Option ℕ → Option ℕ
truthy none = none
truthy (some t) = if t == 0 then none else some t

abbrev first_of : Option ℕ → ℕ → Option ℕ
first_of none now = some now
first_of (some t) now = some t

update : Dict Text → Dict Text → Dict Text
update d [] = d
update d ((k, v) ∷ m) = update (put d k v) m

merged : Dict Text → Option (Dict Text) → Dict Text
unfolding update
merged d none = d
merged d (some m) = update d m

abbrev is_skipped : Option Status → Bool
is_skipped (some skipped) = true
is_skipped (some started) = false
is_skipped (some done) = false
is_skipped none = false

-- The entry that `record_stage_started` writes.
unfoldable pub started_entry : ℕ → Option (Dict Text) → Entry → Entry
unfolding merged
started_entry now meta e =
    append_event
      (record e {
        started_at = first_of (truthy e.started_at) now;
        status = some started;
        meta = merged e.meta meta;
      })
      stage_started now

-- The entry that `record_stage_skipped` writes.
unfoldable pub skipped_entry : ℕ → Text → Option (Dict Text) → Entry → Entry
unfolding merged
skipped_entry now reason meta e =
    append_event
      (record e {
        started_at = first_of e.started_at now;
        skipped_at = some now;
        skip_reason = or_else reason (codes "skipped");
        status = some skipped;
        meta = merged e.meta meta;
      })
      (stage_skipped (or_else reason (codes "skipped"))) now

-- The entry that `write_ckpt` writes, over the one before it; the events of that are not taken over.
unfoldable pub finished_entry : ℕ → Dict Artifact → Option (Dict Text) → Entry → Entry
unfolding merged
finished_entry now recs meta prior =
    append_event
      (record {
        is_done = true;
        done_at = some now;
        artifacts = recs;
        meta = merged [] meta;
        started_at = truthy prior.started_at;
        skipped_at = truthy prior.skipped_at;
        skip_reason = prior.skip_reason;
        status =
            some (
              if not (is_empty prior.skip_reason) || is_skipped prior.status
              then skipped
              else done);
        events = [];
      })
      stage_finished now

unfoldable pub put_entry : Checkpoint → Text → ℕ → (Entry → Entry) → Checkpoint
put_entry c stage now fields = record c {
  updated_at = some now;
  stages = put c.stages stage (fields (entry_or_empty (get c.stages stage)));
}

-- `record_stage_started`
unfoldable pub record_stage_started :
    Text → Text → ℕ → Option (Dict Text) → Option Checkpoint → Checkpoint
unfolding put_entry
record_stage_started job_id stage now meta c =
    put_entry (init_ckpt job_id c) stage now (started_entry now meta)

-- `record_stage_skipped`
unfoldable pub record_stage_skipped :
    Text → Text → Text → ℕ → Option (Dict Text) → Option Checkpoint → Checkpoint
unfolding put_entry
record_stage_skipped job_id stage reason now meta c =
    put_entry (init_ckpt job_id c) stage now (skipped_entry now reason meta)

module _ (sha : List ℕ → Text) where
  -- `_artifact_record`
  abbrev pub artifact_record : Text → File → Artifact
  artifact_record path f = record {
    path = path;
    sha256 = sha f.content;
    size = length f.content;
    mtime = f.mtime;
  }

  -- The records of the artifacts that are there. Their names, the keys of a dictionary, differ.
  unfoldable pub records : Disk → List (Text × Text) → Dict Artifact
  records disk [] = []
  records disk ((name, path) ∷ arts) =
      let rest = records disk arts in
      elim (get disk path) [ none ↦ rest | some f ↦ (name, artifact_record path f) ∷ rest ]

  -- `write_ckpt`
  unfoldable pub write_ckpt :
      Disk
      → Text
      → Text
      → List (Text × Text)
      → ℕ
      → Option (Dict Text)
      → Option Checkpoint
      → Checkpoint
  unfolding put_entry
  write_ckpt disk job_id stage artifacts now meta c =
      put_entry (record (init_ckpt job_id c) { last_stage = some stage }) stage now
        (finished_entry now (records disk artifacts) meta)

  unfoldable pub is_valid : Artifact → Option File → Bool
  is_valid a none = false
  is_valid a (some f) = is_empty a.sha256 || text_eq (sha f.content) a.sha256

  unfoldable pub all_valid : Disk → Dict Artifact → Bool
  unfolding is_valid
  all_valid disk [] = true
  all_valid disk ((name, a) ∷ arts) = is_valid a (get disk a.path) && all_valid disk arts

  -- `_artifacts_valid`
  unfoldable pub artifacts_valid : Disk → Dict Artifact → Bool
  unfolding all_valid
  artifacts_valid disk [] = false
  artifacts_valid disk (a ∷ arts) = all_valid disk (a ∷ arts)

  unfoldable pub entry_is_done : Disk → Option Entry → Bool
  unfolding artifacts_valid
  entry_is_done disk none = false
  entry_is_done disk (some e) = e.is_done && artifacts_valid disk e.artifacts

  -- `stage_is_done`
  unfoldable pub stage_is_done : Disk → Option Checkpoint → Text → Bool
  unfolding entry_is_done
  stage_is_done disk none stage = false
  stage_is_done disk (some c) stage = entry_is_done disk (get c.stages stage)
