-- ===== src/Scheduler/Submit.antt =====
-- `Scheduler.submit` of src/dubbing_pipeline/runtime/scheduler.py. The clock and the random jitter
-- are arguments, in milliseconds; the job store is threaded through. `none` is the refusal
-- `RuntimeError("draining")`.
use dubbing_pipeline.Base.{
  ℕ, ℤ, pos, negsuc, pos_part, ◌+◌, ◌-◌, ◌*◌, min, Bool, true, false, not, ◌∷◌, [], ◌++◌, Option,
  none, some, Text, codes, text_eq, length, ltb, if◌then◌else◌,
}
use dubbing_pipeline.Jobs.Models.{Job, Metadata, Reasons, not_list, not_dict, dict, reasons}
use dubbing_pipeline.Jobs.Store.{JobStore, update_job}
use dubbing_pipeline.Scheduler.Modes.{norm_mode, next_lower_mode}
use dubbing_pipeline.Scheduler.Heap.{JobRecord, heappush}
use dubbing_pipeline.Scheduler.State.{Scheduler}

-- `self._bp_qmax >= 0 and qlen > self._bp_qmax`
abbrev pub over_limit : ℤ → ℕ → Bool
over_limit (pos limit) qlen = ltb limit qlen
over_limit (negsuc k) qlen = false

abbrev backpressure_degraded : Text
backpressure_degraded = codes "backpressure_degraded"

abbrev add_reason : Reasons → Reasons
add_reason Reasons.absent = reasons (backpressure_degraded ∷ [])
add_reason (reasons rs) = reasons (rs ++ backpressure_degraded ∷ [])
add_reason not_list = not_list

-- The changes to `rt["metadata"]` of a degraded job.
unfoldable pub mark_degraded : Metadata → Metadata
mark_degraded Metadata.absent = dict true (add_reason Reasons.absent)
mark_degraded (dict degraded rs) = dict true (add_reason rs)
mark_degraded not_dict = not_dict

abbrev pub degrade_fields : Text → Job → Job
degrade_fields mode job = record job {
  mode = mode;
  message = codes "Backpressure: degraded to " ++ mode;
  metadata = mark_degraded job.metadata;
}

-- The delay of a job in low mode: 0.5 s, and 0.75 s for each record above the limit, and the jitter
-- `random.random() * 0.75`; 30 s at most.
unfoldable pub backpressure_delay : ℤ → ℕ → ℕ → ℕ
backpressure_delay bp_qmax qlen jitter = min 30000 (500 + (qlen - pos_part bp_qmax) * 750 + jitter)

-- What backpressure makes of a submission: a lower mode, or a later time.
pub data Verdict : Type 0 where
  keep_mode degrade delay : Verdict

unfoldable pub backpressure : Scheduler → Text → Verdict
backpressure s mode =
    if over_limit s.bp_qmax (length s.heap)
    then if not (text_eq (next_lower_mode mode) mode) then degrade else delay
    else keep_mode

unfoldable pub enqueue_record : Scheduler → JobRecord → Text → ℕ → Scheduler
enqueue_record s job mode available_at = record s {
  seq = s.seq + 1;
  heap =
      heappush
        (record {
          available_at = available_at;
          priority = job.priority;
          created_at = job.created_at;
          seq = s.seq + 1;
          rec = record job { mode = mode };
        })
        s.heap;
}

-- The message of a delayed job names the delay; its digits are given by `show_delay`.
unfoldable pub submit_as :
    (ℕ → Text) → Scheduler → JobStore → JobRecord → Text → ℕ → ℕ → Verdict → Scheduler × JobStore
submit_as show_delay s store job mode now jitter keep_mode = (enqueue_record s job mode now, store)
submit_as show_delay s store job mode now jitter degrade =
    let lower = next_lower_mode mode in
    (enqueue_record s job lower now, (update_job store job.job_id (degrade_fields lower)).1)
submit_as show_delay s store job mode now jitter delay =
    let wait = backpressure_delay s.bp_qmax (length s.heap) jitter in
    (
      enqueue_record s job mode (now + wait),
      (update_job store job.job_id
          (λ j. record j { message = codes "Backpressure: delayed " ++ show_delay wait })).1,
    )

unfoldable pub submit :
    (ℕ → Text) → Bool → ℕ → ℕ → Scheduler → JobStore → JobRecord → Option (Scheduler × JobStore)
unfolding submit_as backpressure
submit show_delay draining now jitter s store job =
    let mode = norm_mode job.mode in
    if draining
    then none
    else some (submit_as show_delay s store job mode now jitter (backpressure s mode))
