-- ===== src/JobQueue/Calls.antt =====
-- Any calls on the queue of src/dubbing_pipeline/jobs/queue_impl.py, in the order in which they come.
use dubbing_pipeline.Base.{List, [], ◌∷◌, Text, ◌≡◌, true}
use dubbing_pipeline.Jobs.Models.{Job, is_queued}
use dubbing_pipeline.JobQueue.State
use dubbing_pipeline.JobQueue.State.{Queue, Intake}
use dubbing_pipeline.JobQueue.Workers
use dubbing_pipeline.JobQueue.Workers.{World, Gate, Ending}

-- The calls on one queue in one process; a new process has a new queue.
pub data Call : Type 0 where
  start : Intake → Call
  enqueue : Job → Call
  enqueue_id : Text → Call
  cancel : Text → Call
  kill : Text → Text → Call
  pause : Text → Call
  resume : Text → Call
  round : Call
  end_run : Text → Ending → Call

abbrev on_queue : World → Queue → World
on_queue w q = record w { queue = q }

unfoldable pub perform : Gate → World → Call → World
perform gate w (start intake) = on_queue w (State.start intake w.queue)
perform gate w (enqueue j) = on_queue w (State.enqueue w.queue j)
perform gate w (enqueue_id id) = on_queue w (State.enqueue_id w.queue id)
perform gate w (cancel id) = on_queue w (State.cancel w.queue id)
perform gate w (kill id reason) = on_queue w (State.kill w.queue id reason)
perform gate w (pause id) = on_queue w (State.pause w.queue id)
perform gate w (resume id) = on_queue w (State.resume w.queue id)
perform gate w round = Workers.round gate w
perform gate w (end_run id e) = Workers.end_run w id e

unfoldable pub perform_all : Gate → World → List Call → World
perform_all gate w [] = w
perform_all gate w (c ∷ cs) = perform_all gate (perform gate w c) cs

-- A job is submitted in the state QUEUED.
abbrev pub IsSubmission : Call → Type 0
IsSubmission (enqueue j) = is_queued j.state ≡ true
IsSubmission _ = Unit

abbrev pub AreSubmissions : List Call → Type 0
AreSubmissions [] = Unit
AreSubmissions (c ∷ cs) = IsSubmission c × AreSubmissions cs
