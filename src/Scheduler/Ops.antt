-- ===== src/Scheduler/Ops.antt =====
-- `on_job_done`, `drop`, `reprioritize`, `snapshot_queue`, `state` and `stop` of
-- src/dubbing_pipeline/runtime/scheduler.py
use dubbing_pipeline.Base.{
  ℕ, ℤ, pos_part, ◌-◌, min, max, Bool, true, false, not, ◌||◌, List, [], ◌∷◌, map, Option, none,
  some, Text, text_eq, is_empty, length, take, keep, get, pop, if◌then◌else◌,
}
use dubbing_pipeline.Scheduler.Modes.{ModeKey, count_at, set_count}
use dubbing_pipeline.Scheduler.Heap.{Entry, heapify}
use dubbing_pipeline.Scheduler.State.{Scheduler, Phases}

-- `max(0, n - 1)` is the truncated difference.
abbrev pub release_mode : Option ModeKey → Scheduler → Scheduler
release_mode none s = s
release_mode (some m) s = record s {
  active_by_mode = set_count s.active_by_mode m (count_at s.active_by_mode m - 1);
}

unfoldable pub on_job_done : Scheduler → Text → Scheduler
on_job_done s job_id = release_mode (get s.active_job_mode job_id) (record s {
  active_global = s.active_global - 1;
  active_job_mode = pop s.active_job_mode job_id;
})

-- The records of one job.
abbrev pub is_of : Text → Entry → Bool
is_of jid e = text_eq e.rec.job_id jid

unfoldable pub drop : Scheduler → Text → Scheduler × ℕ
drop s jid =
    let kept = heapify (keep (λ e. not (is_of jid e)) s.heap) in
    if is_empty jid then (s, 0) else (record s { heap = kept }, length s.heap - length kept)

abbrev pub set_priority : Text → ℤ → Entry → Entry
set_priority jid pr e = if is_of jid e then record e { priority = pr } else e

unfoldable pub any_of : Text → List Entry → Bool
any_of jid [] = false
any_of jid (e ∷ h) = is_of jid e || any_of jid h

unfoldable pub reprioritize : Scheduler → Text → ℤ → Scheduler × Bool
unfolding any_of
reprioritize s jid pr =
    if is_empty jid
    then (s, false)
    else if any_of jid s.heap
    then (record s { heap = heapify (map (set_priority jid pr) s.heap) }, true)
    else (s, false)

-- The first entries of the queue in the order in which they will be dispatched.
unfoldable pub snapshot_queue : Scheduler → ℤ → List Entry
snapshot_queue s limit = take (max 1 (min 500 (pos_part limit))) (heapify s.heap)

pub record Report : Type 0 where
  pub queue_len : ℕ
  pub active_global : ℕ
  pub max_global : ℕ
  pub max_transcribe : ℕ
  pub max_tts : ℕ
  pub backpressure_q_max : ℤ
  pub active_phase : Phases

unfoldable pub state : Scheduler → Report
state s = record {
  queue_len = length s.heap;
  active_global = s.active_global;
  max_global = s.max_global;
  max_transcribe = s.max_transcribe;
  max_tts = s.max_tts;
  backpressure_q_max = s.bp_qmax;
  active_phase = s.active_phase;
}

unfoldable pub request_stop : Scheduler → Scheduler
request_stop s = record s { stop = true }
