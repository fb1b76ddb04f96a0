-- ===== src/JobQueue/Resumed.antt =====
-- A job of src/dubbing_pipeline/jobs/queue_impl.py that is paused and resumed.
use dubbing_pipeline.Base.{
  ℕ, ◌<◌, ◌&&◌, ltb, length, arith, List, [], ◌∷◌, ◌++◌, some, true, false, Text, codes,
  text_eq_refl, ◌≡◌, refl, ap, strip, is_empty,
}
use dubbing_pipeline.Jobs.Models.{
  Job, JobState, queued, paused, running, done, failed, canceled, is_queued,
}
use dubbing_pipeline.Jobs.Store.{JobStore, find_job, update_job, find_job-update_job}
use dubbing_pipeline.JobQueue.State
use dubbing_pipeline.JobQueue.State.{
  Queue, mem, is_paused, set_state, put_state, push, pause_found, resume_found,
}
use dubbing_pipeline.JobQueue.Workers
use dubbing_pipeline.JobQueue.Workers.{
  World, Gate, pass_gate, Ending, finished, aborted, broke, set_ending, without, begin_run,
  is_paused_job, after_gate, work_on, take_first,
}
use dubbing_pipeline.JobQueue.Calls.{
  enqueue_id, pause, resume, round, end_run, perform, perform_all,
}

-- A gate that lets the job pass and leaves the store alone.
abbrev pub IsOpen : Gate → Text → Type 0
IsOpen gate id = (store : JobStore) → pass_gate gate store id ≡ (store, true)

abbrev pub state_of : Ending → JobState
state_of finished = done
state_of aborted = canceled
state_of (broke e) = failed

-- The state of a job that is not canceled, what waits and what runs, in a queue with `k` workers.
pub record At (id : Text) (k : ℕ) (state : JobState) (waiting active : List Text) (w : World)
    : Type 0 where
  pub job : Job
  pub found : find_job w.queue.store id ≡ some job
  pub in_state : job.state ≡ state
  pub queue_is : w.queue.waiting ≡ waiting
  pub active_is : w.active ≡ active
  pub not_canceled : mem id w.queue.cancels ≡ false
  pub is_live : w.queue.started ≡ true
  pub workers : w.queue.concurrency ≡ k

module _ (id : Text) (gate : Gate) (k : ℕ) where
  updated :
      (store : JobStore) (f : Job → Job) (j : Job)
      → find_job store id ≡ some j
      → find_job (update_job store id f).1 id ≡ some (f j)
  updated store f j h = rw (find_job-update_job store id id f, text_eq_refl id, h) refl

  pause-At :
      (waiting active : List Text) (w : World)
      → At id k queued waiting active w
      → At id k paused waiting active (perform gate w (pause id))
  unfolding perform State.pause pause_found put_state set_state
  pause-At waiting active w a =
      let is_q : is_queued a.job.state ≡ true = rw a.in_state refl in
      rw (a.found, is_q)
        (record {
          job = set_state paused (codes "Paused") a.job;
          found = updated w.queue.store (set_state paused (codes "Paused")) a.job a.found;
          in_state = refl;
          queue_is = a.queue_is;
          active_is = a.active_is;
          not_canceled = a.not_canceled;
          is_live = a.is_live;
          workers = a.workers;
        })

  resume-At :
      (waiting active : List Text) (w : World)
      → At id k paused waiting active w
      → At id k queued waiting active (perform gate w (resume id))
  unfolding perform State.resume resume_found put_state set_state
  resume-At waiting active w a =
      let is_p : is_paused a.job.state ≡ true = rw a.in_state refl in
      rw (a.found, is_p)
        (record {
          job = set_state queued (codes "Resumed") a.job;
          found = updated w.queue.store (set_state queued (codes "Resumed")) a.job a.found;
          in_state = refl;
          queue_is = a.queue_is;
          active_is = a.active_is;
          not_canceled = a.not_canceled;
          is_live = a.is_live;
          workers = a.workers;
        })

  enqueue_id-At :
      (state : JobState) (waiting active : List Text) (w : World)
      → strip id ≡ id
      → is_empty id ≡ false
      → At id k state waiting active w
      → At id k state (waiting ++ (id ∷ [])) active (perform gate w (enqueue_id id))
  unfolding perform State.enqueue_id push
  enqueue_id-At state waiting active w clean some_id a =
      rw (clean, some_id)
        (record {
          job = a.job;
          found = a.found;
          in_state = a.in_state;
          queue_is = ap (λ (l : List Text). l ++ (id ∷ [])) a.queue_is;
          active_is = a.active_is;
          not_canceled = a.not_canceled;
          is_live = a.is_live;
          workers = a.workers;
        })

  worker_free :
      (state : JobState) (waiting active : List Text) (w : World)
      → length active < k
      → At id k state waiting active w
      → (w.queue.started && ltb (length w.active) w.queue.concurrency) ≡ true
  worker_free state waiting active w free a = rw (a.is_live, a.active_is, a.workers) (ground arith)

  -- a round at a paused job
  requeue-At :
      (rest active : List Text) (w : World)
      → length active < k
      → At id k paused (id ∷ rest) active w
      → At id k paused (rest ++ (id ∷ [])) active (perform gate w round)
  unfolding perform Workers.round take_first work_on is_paused_job push
  requeue-At rest active w some_free a =
      let free = worker_free paused (id ∷ rest) active w some_free a in
      let is_p : is_paused a.job.state ≡ true = rw a.in_state refl in
      rw (free, a.queue_is, a.found, is_p)
        (record {
          job = a.job;
          found = a.found;
          in_state = a.in_state;
          queue_is = refl;
          active_is = a.active_is;
          not_canceled = a.not_canceled;
          is_live = a.is_live;
          workers = a.workers;
        })

  -- a round at a job that is not paused
  begin-At :
      (state : JobState) (rest active : List Text) (w : World)
      → IsOpen gate id
      → is_paused state ≡ false
      → length active < k
      → At id k state (id ∷ rest) active w
      → At id k running rest (id ∷ active) (perform gate w round)
  unfolding perform Workers.round take_first work_on is_paused_job after_gate begin_run put_state
      set_state
  begin-At state rest active w opens not_paused some_free a =
      let free = worker_free state (id ∷ rest) active w some_free a in
      let no_p : is_paused a.job.state ≡ false = rw a.in_state not_paused in
      rw (free, a.queue_is, a.found, no_p, opens w.queue.store, a.found, a.not_canceled)
        (record {
          job = set_state running (codes "Starting") a.job;
          found = updated w.queue.store (set_state running (codes "Starting")) a.job a.found;
          in_state = refl;
          queue_is = refl;
          active_is = ap (◌∷◌ id) a.active_is;
          not_canceled = a.not_canceled;
          is_live = a.is_live;
          workers = a.workers;
        })

  pub end-At :
      (state : JobState) (waiting active : List Text) (w : World) (e : Ending)
      → At id k state waiting (id ∷ active) w
      → At id k (state_of e) waiting active (perform gate w (end_run id e))
  unfolding perform Workers.end_run set_ending mem without
  end-At state waiting active w e a =
      rw (a.active_is, text_eq_refl id)
        (record {
          job = set_ending e a.job;
          found = updated w.queue.store (set_ending e) a.job a.found;
          in_state = ended e a.job;
          queue_is = a.queue_is;
          active_is = refl;
          not_canceled = a.not_canceled;
          is_live = a.is_live;
          workers = a.workers;
        })
    where
      ended : (e : Ending) (j : Job) → (set_ending e j).state ≡ state_of e
      ended finished j = refl
      ended aborted j = refl
      ended (broke m) j = refl

-- A waiting job that is paused, met by a worker, resumed and submitted anew waits twice: the worker had
-- put it back. If the gate lets it pass, it is run again after it was finished, and where the queue has
-- more than one worker, two of them may run it at the same time.
pub resumed_runs_twice :
    (id : Text) (gate : Gate) (k : ℕ) (w : World)
    → IsOpen gate id
    → strip id ≡ id
    → is_empty id ≡ false
    → 0 < k
    → At id k queued (id ∷ []) [] w
    → let again = perform_all gate w (pause id ∷ round ∷ resume id ∷ enqueue_id id ∷ []) in
      At id k queued (id ∷ id ∷ []) [] again
      × At id k running []
          (id ∷ [])
          (perform_all gate again (round ∷ end_run id finished ∷ round ∷ []))
      × (1 < k → At id k running [] (id ∷ id ∷ []) (perform_all gate again (round ∷ round ∷ [])))
unfolding perform_all
resumed_runs_twice id gate k w opens clean some_id some_worker a =
    let paused_at = pause-At id gate k (id ∷ []) [] w a in
    let put_back = requeue-At id gate k [] [] _ some_worker paused_at in
    let resumed = resume-At id gate k (id ∷ []) [] _ put_back in
    let again = enqueue_id-At id gate k queued (id ∷ []) [] _ clean some_id resumed in
    let first = begin-At id gate k queued (id ∷ []) [] _ opens refl some_worker again in
    (
      again,
      begin-At id gate k done [] [] _ opens refl some_worker
          (end-At id gate k running (id ∷ []) [] _ finished first),
      λ two. begin-At id gate k running [] (id ∷ []) _ opens refl two first,
    )
