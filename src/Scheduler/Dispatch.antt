-- ===== src/Scheduler/Dispatch.antt =====
-- One round of `Scheduler._dispatch_loop`, and `_enqueue_one`, of
-- src/dubbing_pipeline/runtime/scheduler.py. The optional Redis mutex is best effort: it never keeps
-- the dispatcher from going on, and is left out.
use dubbing_pipeline.Base.{
  ℕ, ◌+◌, ◌-◌, min, not, ◌&&◌, List, [], ◌∷◌, Option, none, some, Text, codes, text_eq, is_empty,
  put, ltb, leb, if◌then◌else◌,
}
use dubbing_pipeline.Jobs.Models.{Job, is_queued, failed}
use dubbing_pipeline.Jobs.Store.{JobStore, find_job, update_job}
use dubbing_pipeline.Scheduler.Modes.{ModeKey, count_at, set_count, mode_key}
use dubbing_pipeline.Scheduler.Heap.{JobRecord, Entry, heappush}
use dubbing_pipeline.Scheduler.State.{Scheduler, mode_cap}
use dubbing_pipeline.Scheduler.Ops.{on_job_done}

-- How a round ends: the loop returns, it waits for at most so many milliseconds, or a record leaves
-- the queue.
pub data Round : Type 0 where
  stopped : Round
  waited : ℕ → Round
  dispatched : JobRecord → Round

-- `heapreplace`: the head comes back half a second later, under a new number.
unfoldable pub postpone : Entry → ℕ → ℕ → Entry
postpone e now seq = record {
  available_at = now + 500;
  priority = e.rec.priority;
  created_at = e.rec.created_at;
  seq = seq;
  rec = e.rec;
}

-- The bookkeeping of a record that leaves the queue.
unfoldable pub start_job : Scheduler → List Entry → JobRecord → ModeKey → Scheduler
start_job s rest rec m = record s {
  heap = rest;
  active_global = s.active_global + 1;
  active_by_mode = set_count s.active_by_mode m (count_at s.active_by_mode m + 1);
  active_job_mode = put s.active_job_mode rec.job_id m;
}

unfoldable pub dispatch_head : ℕ → Scheduler → List Entry → Round × Scheduler
unfolding start_job postpone
dispatch_head now s [] = (waited 500, s)
dispatch_head now s (e ∷ rest) =
    let m = mode_key e.rec.mode in
    if ltb now e.available_at
    then (waited (min 500 (e.available_at - now)), s)
    else if leb (mode_cap s m) (count_at s.active_by_mode m)
    then (
      waited 250,
      record s { heap = heappush (postpone e now (s.seq + 1)) rest; seq = s.seq + 1 },
    )
    else if leb s.max_global s.active_global
    then (waited 250, s)
    else (dispatched e.rec, start_job s rest e.rec m)

unfoldable pub dispatch : ℕ → Scheduler → Round × Scheduler
unfolding dispatch_head
dispatch now s = if s.stop then (stopped, s) else dispatch_head now s s.heap

-- `self.store.update(...) or job`
abbrev pub updated_or : Job → Option Job × JobStore → Job × JobStore
updated_or job (none, store) = (job, store)
updated_or job (some job', store) = (job', store)

-- Writes a field of the record to the job, where the record has one and the job differs.
unfoldable pub align : Text → Text → (Job → Job) → Text → Job × JobStore → Job × JobStore
align want have fields id (job, store) =
    if not (is_empty want) && not (text_eq want have)
    then updated_or job (update_job store id fields)
    else (job, store)

unfoldable pub align_job : JobRecord → Job → JobStore → Job × JobStore
unfolding align
align_job rec job store =
    let (job', store') =
      align rec.mode job.mode (λ j. record j { mode = rec.mode }) rec.job_id (job, store) in
    align rec.device_pref job'.device (λ j. record j { device = rec.device_pref }) rec.job_id
      (job', store')

abbrev pub fail_fields : Text → Job → Job
fail_fields why j = record j {
  state = failed;
  message = codes "Scheduler enqueue failed";
  error = some why;
}

-- `enqueue_cb` hands the job to the job queue, or raises with a text. The last part of the result is
-- the job that it was called with.
abbrev pub hand_over :
    Option Text → Job → Text → Scheduler → JobStore → Scheduler × JobStore × Option Job
hand_over none job id s store = (s, store, some job)
hand_over (some why) job id s store =
    (on_job_done s id, (update_job store id (fail_fields why)).1, some job)

unfoldable pub enqueue_found :
    (Job → Option Text)
    → JobRecord
    → Scheduler
    → JobStore
    → Option Job
    → Scheduler × JobStore × Option Job
enqueue_found enqueue_cb rec s store none = (on_job_done s rec.job_id, store, none)
enqueue_found enqueue_cb rec s store (some job) =
    if not (is_queued job.state)
    then (on_job_done s rec.job_id, store, none)
    else (let (job', store') = align_job rec job store in
        hand_over (enqueue_cb job') job' rec.job_id s store')

unfoldable pub enqueue_one :
    (Job → Option Text) → JobRecord → Scheduler → JobStore → Scheduler × JobStore × Option Job
unfolding enqueue_found
enqueue_one enqueue_cb rec s store =
    enqueue_found enqueue_cb rec s store (find_job store rec.job_id)
