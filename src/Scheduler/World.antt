-- ===== src/Scheduler/World.antt =====
-- The scheduler with its job store and its dispatcher thread, as src/dubbing_pipeline/runtime/scheduler.py
-- runs them: calls of several threads in any order, each under the lock but for the semaphores. Between
-- the round that takes a record off the queue and `_enqueue_one` the lock is free; `pending` is the record
-- in between.
use dubbing_pipeline.Base.{ℕ, ℤ, ◌<◌, ◌≡◌, Bool, Option, none, some, Text}
use dubbing_pipeline.Jobs.Models.{Job}
use dubbing_pipeline.Jobs.Store.{JobStore}
use dubbing_pipeline.Scheduler.Heap.{JobRecord}
use dubbing_pipeline.Scheduler.State.{Phase, phase_at, Scheduler, Settings, init}
use dubbing_pipeline.Scheduler.Submit.{submit}
use dubbing_pipeline.Scheduler.Ops.{on_job_done, drop, reprioritize, request_stop}
use dubbing_pipeline.Scheduler.Dispatch.{Round, stopped, waited, dispatched, dispatch, enqueue_one}
use dubbing_pipeline.Scheduler.Phases.{acquire, count_in, count_out, give_back}
use dubbing_pipeline.Scheduler.Invariant.{Inv, init-Inv}
use dubbing_pipeline.Scheduler.Preserve.{
  submit-Inv, on_job_done-Inv, drop-Inv, reprioritize-Inv, request_stop-Inv, dispatch-Inv,
  enqueue_one-Inv, acquire-Inv, count_in-Inv, count_out-Inv, give_back-Inv,
}

pub record World : Type 0 where
  pub sched : Scheduler
  pub store : JobStore
  pub pending : Option JobRecord

abbrev pub taken : Round → Option JobRecord
taken stopped = none
taken (waited ms) = none
taken (dispatched rec) = some rec

-- What the program does not decide: how a delay is printed, and what the job queue answers.
module _ (show_delay : ℕ → Text) (enqueue_cb : Job → Option Text) where
  pub data Step (w : World) : World → Type 0 where
    submits :
        (draining : Bool) (now jitter : ℕ) (job : JobRecord) {s : Scheduler} {store : JobStore}
        → submit show_delay draining now jitter w.sched w.store job ≡ some (s, store)
        → Step w (record w { sched = s; store = store })
    finishes : (id : Text) → Step w (record w { sched = on_job_done w.sched id })
    drops : (id : Text) → Step w (record w { sched = (drop w.sched id).0 })
    reorders : (id : Text) (pr : ℤ) → Step w (record w { sched = (reprioritize w.sched id pr).0 })
    polls :
        (now : ℕ)
        → w.pending ≡ none
        → Step w (record w {
          sched = (dispatch now w.sched).1;
          pending = taken (dispatch now w.sched).0;
        })
    enqueues :
        (rec : JobRecord)
        → w.pending ≡ some rec
        → Step w (record {
          sched = (enqueue_one enqueue_cb rec w.sched w.store).0;
          store = (enqueue_one enqueue_cb rec w.sched w.store).1;
          pending = none;
        })
    acquires :
        (p : Phase) {s : Scheduler} → acquire w.sched p ≡ some s → Step w (record w { sched = s })
    counts_in :
        (p : Phase)
        → 0 < phase_at w.sched.entering p
        → Step w (record w { sched = count_in w.sched p })
    -- A `with` block leaves a phase that it is in.
    counts_out :
        (p : Phase)
        → 0 < phase_at w.sched.active_phase p
        → Step w (record w { sched = count_out w.sched p })
    gives_back :
        (p : Phase)
        → 0 < phase_at w.sched.leaving p
        → Step w (record w { sched = give_back w.sched p })
    stops : Step w (record w { sched = request_stop w.sched })

  pub data Reach (w : World) : World → Type 0 where
    here : Reach w w
    then_ : {u v : World} → Reach w u → Step u v → Reach w v

  pub Step-Inv : {w u : World} → Step w u → Inv w.sched → Inv u.sched
  Step-Inv {w} (submits draining now jitter job e) v =
      submit-Inv show_delay draining now jitter w.sched w.store job e v
  Step-Inv {w} (finishes id) v = on_job_done-Inv w.sched id v
  Step-Inv {w} (drops id) v = drop-Inv w.sched id v
  Step-Inv {w} (reorders id pr) v = reprioritize-Inv w.sched id pr v
  Step-Inv {w} (polls now e) v = dispatch-Inv now w.sched v
  Step-Inv {w} (enqueues rec e) v = enqueue_one-Inv enqueue_cb rec w.sched w.store v
  Step-Inv {w} (acquires p e) v = acquire-Inv w.sched p e v
  Step-Inv {w} (counts_in p h) v = count_in-Inv w.sched p h v
  Step-Inv {w} (counts_out p h) v = count_out-Inv w.sched p h v
  Step-Inv {w} (gives_back p h) v = give_back-Inv w.sched p h v
  Step-Inv {w} stops v = request_stop-Inv w.sched v

  Reach-from-Inv : {w u : World} → Reach w u → Inv w.sched → Inv u.sched
  Reach-from-Inv here v = v
  Reach-from-Inv (then_ r st) v = Step-Inv st (Reach-from-Inv r v)

  abbrev pub start_world : Settings → JobStore → World
  start_world c store = record { sched = init c; store = store; pending = none }

  -- Whatever calls come, in whatever order, from a fresh scheduler on: the heap is in dispatch order
  -- under distinct sequence numbers, the counts exceed neither the global cap nor the cap of a mode, and
  -- in each phase the threads in it and on their way and the free slots make up its limit.
  pub Reach-Inv :
      (c : Settings) (store : JobStore) {u : World} → Reach (start_world c store) u → Inv u.sched
  Reach-Inv c store r = Reach-from-Inv r (init-Inv c)
