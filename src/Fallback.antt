-- ===== src/Fallback.antt =====
-- The local queue that stands in for Redis: `FallbackLocalQueue` of
-- src/dubbing_pipeline/queue/fallback_local_queue.py, over the scheduler and the job store. The state
-- is `_seen`, a set kept as a list, with the scheduler. What a call of `Scheduler.submit` reads from
-- outside, the clocks, the jitter and whether the service is draining, is a `Moment`; in a scan each
-- job has its own.
pub mod Scan
pub mod Admission
pub mod Examples
use dubbing_pipeline.Base.{
  ℕ, ℤ, pos, suc, ◌+◌, ◌==◌, Bool, true, false, not, ◌&&◌, List, [], ◌∷◌, Option, none, some, Text,
  codes, text_eq, strip, or_else, is_empty, leb, count_if, Dict, get, if◌then◌else◌,
}
use dubbing_pipeline.Jobs.Models.{Job, queued, is_queued, is_running}
use dubbing_pipeline.Jobs.Store.{JobStore, update_job, list_jobs}
use dubbing_pipeline.Jobs.Limits.{UserQuota, Settings, resolve_user_quotas}
use dubbing_pipeline.Jobs.Policy.{JobCounts}
use dubbing_pipeline.Scheduler.Heap.{JobRecord}
use dubbing_pipeline.Scheduler.State.{Scheduler}
use dubbing_pipeline.Scheduler.Submit.{submit}

pub record Moment : Type 0 where
  pub draining : Bool
  pub monotonic : ℕ
  pub time : ℕ
  pub jitter : ℕ

pub record Fallback : Type 0 where
  pub scheduler : Scheduler
  pub seen : List Text

-- `x in s`
unfoldable pub mem : Text → List Text → Bool
mem x [] = false
mem x (y ∷ s) = if text_eq x y then true else mem x s

-- `s.discard(x)`
unfoldable pub discard : Text → List Text → List Text
discard x [] = []
discard x (y ∷ s) = let rest = discard x s in if text_eq x y then rest else y ∷ rest

abbrev pub after_submit :
    Fallback → JobStore → Option (Scheduler × JobStore) → Fallback × JobStore × Bool
after_submit q store none = (q, store, false)
after_submit q store (some (s, store')) = (record q { scheduler = s }, store', true)

-- The record under which a scan submits a job.
abbrev pub scan_record : Moment → Job → JobRecord
scan_record m j = record {
  job_id = j.id;
  mode = or_else j.mode (codes "medium");
  device_pref = or_else j.device (codes "auto");
  created_at = m.time;
  priority = pos 100;
}

abbrev pub wanted : List Text → Job → Bool
wanted seen j = is_queued j.state && (not (is_empty j.id) && not (mem j.id seen))

abbrev pub without_answer : Fallback × JobStore × Bool → Fallback × JobStore
without_answer (q, store, ok) = (q, store)

module _ (show_delay : ℕ → Text) where
  -- A call of `Scheduler.submit`; `none` is its refusal.
  abbrev pub submit_record :
      Moment → JobRecord → Scheduler → JobStore → Option (Scheduler × JobStore)
  submit_record m rec s store = submit show_delay m.draining m.monotonic m.jitter s store rec

  -- `submit_job`; the last part says whether it returns, or lets the refusal through
  unfoldable pub submit_job :
      Moment → Fallback → JobStore → Text → Text → Text → ℤ → Fallback × JobStore × Bool
  submit_job m q store job_id mode device priority =
      let id = strip job_id in
      let known = record q { seen = discard id q.seen } in
      if is_empty id
      then (q, store, true)
      else after_submit known store (
          submit_record m
            (record {
              job_id = id;
              mode = or_else mode (codes "medium");
              device_pref = or_else device (codes "auto");
              created_at = m.time;
              priority = priority;
            })
            q.scheduler store)

  -- One job of a scan: the refusal of the scheduler is suppressed.
  unfoldable pub scan_job : Moment → Job → Fallback × JobStore → Fallback × JobStore
  scan_job m j (q, store) =
      if wanted q.seen j
      then without_answer (
          after_submit (record q { seen = j.id ∷ q.seen }) store
            (submit_record m (scan_record m j) q.scheduler store))
      else (q, store)

  unfoldable pub scan_jobs : (Text → Moment) → List Job → Fallback × JobStore → Fallback × JobStore
  scan_jobs moments [] w = w
  scan_jobs moments (j ∷ jobs) w = scan_jobs moments jobs (scan_job (moments j.id) j w)

  -- One pass of `_scan_loop`.
  unfoldable pub scan : (Text → Moment) → Fallback → JobStore → Fallback × JobStore
  scan moments q store = scan_jobs moments (list_jobs store 250) (q, store)

-- `stop`, once the task has ended
unfoldable pub stop : Fallback → Fallback
stop q = record q { seen = [] }

-- The loop of `user_counts`.
unfoldable pub tally : (Text → Bool) → Text → List Job → JobCounts → JobCounts
tally is_today uid [] c = c
tally is_today uid (j ∷ jobs) c = tally is_today uid jobs (
    if text_eq j.owner_id uid
    then record {
      running = c.running + (if is_running j.state then 1 else 0);
      queued = c.queued + (if is_queued j.state then 1 else 0);
      today = c.today + (if is_today j.created_at then 1 else 0);
    }
    else c)

unfoldable pub user_counts : (Text → Bool) → JobStore → Text → JobCounts
user_counts is_today store user_id =
    tally is_today user_id (list_jobs store 2000) (record { running = 0; queued = 0; today = 0 })

-- `JobStore.get_user_quota`; a row that is missing is `none`
unfoldable pub get_user_quota : Dict UserQuota → Text → Option UserQuota
get_user_quota rows user_id = if is_empty (strip user_id) then none else get rows (strip user_id)

abbrev pub wait_fields : Job → Job
wait_fields j = record j { state = queued; message = codes "Waiting for quota" }

-- `before_job_run`: whether the job may run now
unfoldable pub before_job_run :
    Settings → Dict UserQuota → Text → Text → Fallback → JobStore → Bool × Fallback × JobStore
before_job_run settings rows job_id user_id q store =
    let uid = strip user_id in
    let max_concurrent =
      (resolve_user_quotas settings (get_user_quota rows uid)).max_concurrent_jobs_per_user in
    let running =
      count_if (λ j. text_eq j.owner_id uid && is_running j.state) (list_jobs store 2000) in
    if is_empty uid
    then (true, q, store)
    else if max_concurrent == 0
    then (true, q, store)
    else if leb max_concurrent running
    then (false, record q { seen = discard job_id q.seen }, (update_job store job_id wait_fields).1)
    else (true, q, store)
