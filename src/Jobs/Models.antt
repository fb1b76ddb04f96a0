-- ===== src/Jobs/Models.antt =====
-- src/dubbing_pipeline/jobs/models.py: states, visibility and the job record. The record has the
-- fields that the modelled parts read or write; `duration_s` is counted in milliseconds.
use dubbing_pipeline.Base.{
  Bool, true, false, List, Option, ℕ, Text, codes, text_eq, lower, strip, starts_with, after_dot,
  if◌then◌else◌, ◌||◌,
}

pub data JobState : Type 0 where
  queued paused running done failed canceled : JobState

abbrev pub is_queued : JobState → Bool
is_queued queued = true
is_queued _ = false

abbrev pub is_running : JobState → Bool
is_running running = true
is_running _ = false

pub data Visibility : Type 0 where
  private_ shared : Visibility

-- The list under `runtime["metadata"]["degraded_reasons"]`, if it is there and is a list.
pub data Reasons : Type 0 where
  absent not_list : Reasons
  reasons : List Text → Reasons

-- `runtime["metadata"]`: a dictionary with its entries `degraded` and `degraded_reasons`, if it is
-- there and is a dictionary. Other entries of `runtime` are not read by the modelled parts.
pub data Metadata : Type 0 where
  absent not_dict : Metadata
  dict : Bool → Reasons → Metadata

pub record Job : Type 0 where
  pub id : Text
  pub owner_id : Text
  pub duration_s : ℕ
  pub mode : Text
  pub device : Text
  pub created_at : Text
  pub state : JobState
  pub message : Text
  pub error : Option Text
  pub metadata : Metadata
  pub visibility : Visibility

-- `v.split(".", 1)[1]` under the guard that `v` starts with "visibility."
unfoldable pub normalize_visibility : Text → Visibility
normalize_visibility raw =
    let v = lower (strip raw) in
    let w = if starts_with v (codes "visibility.") then after_dot v else v in
    if text_eq w (codes "shared") || text_eq w (codes "public") then shared else private_
