-- ===== src/JobQueue/Workers.antt =====
-- The workers of src/dubbing_pipeline/jobs/queue_impl.py. The stages of a run stand outside; a run begins, and it ends in one of three ways.
use dubbing_pipeline.Base.{
  ◌&&◌, ltb, length, List, [], ◌∷◌, Option, none, some, Bool, true, false, if◌then◌else◌, Text,
  codes, text_eq,
}
use dubbing_pipeline.Jobs.Models.{Job, running, done, failed, canceled}
use dubbing_pipeline.Jobs.Store.{JobStore, find_job, update_job}
use dubbing_pipeline.JobQueue.State.{Queue, mem, is_paused, push, put_state}

-- The queue with the ids that its workers run.
pub record World : Type 0 where
  pub queue : Queue
  pub active : List Text

-- `before_job_run` of the queue backend, if there is one: what it makes of the store, and its answer, or
-- nothing where it raises.
abbrev pub Gate : Type 0
Gate = Option (JobStore → Text → JobStore × Option Bool)

-- What the gate makes of a job: whether it may run.
unfoldable pub pass_gate : Gate → JobStore → Text → JobStore × Bool
pass_gate none store id = (store, true)
pass_gate (some gate) store id =
    let (after, answer) = gate store id in (after, elim answer [ none ↦ false | some b ↦ b ])

-- The beginning of `_run_job`
unfoldable pub begin_run : World → Text → Option Job → World
begin_run w id none = w
begin_run w id (some j) =
    if mem id w.queue.cancels
    then record w { queue = put_state (w.queue) id canceled (codes "Canceled before start") }
    else record w {
      queue = put_state (w.queue) id running (codes "Starting");
      active = id ∷ w.active;
    }

-- A round of a worker, once the id is taken from the queue and the job is looked up: a paused job goes
-- back to the end of the queue.
unfoldable pub is_paused_job : Option Job → Bool
is_paused_job none = false
is_paused_job (some j) = is_paused j.state

unfoldable pub after_gate : World → Text → JobStore × Bool → World
unfolding begin_run
after_gate w id (store, false) = record w { queue = record (w.queue) { store = store } }
after_gate w id (store, true) =
    begin_run (record w { queue = record (w.queue) { store = store } }) id (find_job store id)

unfoldable pub work_on : Gate → World → Text → World
unfolding is_paused_job after_gate
work_on gate w id =
    if is_paused_job (find_job w.queue.store id)
    then record w { queue = push (w.queue) id }
    else after_gate w id (pass_gate gate w.queue.store id)

-- a worker takes the first id, if one is waiting
unfoldable pub take_first : Gate → World → List Text → World
unfolding work_on
take_first gate w [] = w
take_first gate w (id ∷ rest) =
    work_on gate (record w { queue = record (w.queue) { waiting = rest } }) id

-- Each worker runs one job at a time, so that a worker is free while fewer jobs run than there are workers,
-- which are there from `start` on.
unfoldable pub round : Gate → World → World
unfolding take_first
round gate w =
    if w.queue.started && ltb (length w.active) w.queue.concurrency
    then take_first gate w w.queue.waiting
    else w

pub data Ending : Type 0 where
  finished : Ending
  aborted : Ending
  broke : Text → Ending

unfoldable pub set_ending : Ending → Job → Job
set_ending finished j = record j { state = done; message = codes "Done" }
set_ending aborted j = record j { state = canceled; message = codes "Canceled"; error = none }
set_ending (broke e) j = record j { state = failed; message = codes "Failed"; error = some e }

unfoldable pub without : Text → List Text → List Text
without id [] = []
without id (x ∷ xs) = if text_eq id x then xs else x ∷ without id xs

-- the end of `_run_job`, for a run that is active
unfoldable pub end_run : World → Text → Ending → World
unfolding set_ending
end_run w id e =
    if mem id w.active
    then record {
      queue = record (w.queue) { store = (update_job w.queue.store id (set_ending e)).1 };
      active = without id w.active;
    }
    else w
