-- ===== src/JobQueue/State.antt =====
-- `JobQueue` of src/dubbing_pipeline/jobs/queue_impl.py and its methods but the workers. The log, the
-- audit and the other fields that a run writes into the job are not modelled.
use dubbing_pipeline.Base.{
  ℕ, List, [], ◌∷◌, ◌++◌, Option, none, some, Bool, true, false, ◌||◌, if◌then◌else◌, Text, codes,
  text_eq, strip, is_empty, put, max,
}
use dubbing_pipeline.Jobs.Models.{Job, JobState, queued, paused, canceled, is_queued, is_running}
use dubbing_pipeline.Jobs.Store.{JobStore, find_job, update_job, list_jobs}

abbrev pub is_paused : JobState → Bool
is_paused paused = true
is_paused _ = false

-- The queue: the store, the waiting ids, the set of canceled ids, and whether the workers run.
pub record Queue : Type 0 where
  pub store : JobStore
  pub concurrency : ℕ
  pub waiting : List Text
  pub cancels : List Text
  pub started : Bool

unfoldable pub mem : Text → List Text → Bool
mem id [] = false
mem id (x ∷ xs) = text_eq id x || mem id xs

-- __init__
unfoldable pub new : JobStore → ℕ → Queue
new store concurrency = record {
  store = store;
  concurrency = max 1 concurrency;
  waiting = [];
  cancels = [];
  started = false;
}

-- self._q.put(id)
unfoldable pub push : Queue → Text → Queue
push s id = record s { waiting = s.waiting ++ (id ∷ []) }

-- store.update(id, state=…, message=…)
unfoldable pub set_state : JobState → Text → Job → Job
set_state state message j = record j { state = state; message = message }

unfoldable pub put_state : Queue → Text → JobState → Text → Queue
unfolding set_state
put_state s id state message = record s {
  store = (update_job s.store id (set_state state message)).1;
}

-- The queue backend at the recovery, if there is one: whether it takes a job or raises.
abbrev pub Intake : Type 0
Intake = Option (Text → Bool)

abbrev pub takes : Intake → Text → Bool
takes none id = false
takes (some f) id = f id

-- one round of the recovery in `start`
unfoldable pub recover_one : Intake → Queue → Job → Queue
unfolding put_state push
recover_one intake s j =
    if is_queued j.state || is_running j.state
    then (let s' = put_state s j.id queued (codes "Recovered after restart") in
        if takes intake j.id then s' else push s' j.id)
    else s

unfoldable pub recover : Intake → Queue → List Job → Queue
recover intake s [] = s
recover intake s (j ∷ js) = recover intake (recover_one intake s j) js

-- start
unfoldable pub start : Intake → Queue → Queue
start intake s =
    if s.started then s else record (recover intake s (list_jobs s.store 1000)) { started = true }

-- enqueue
unfoldable pub enqueue : Queue → Job → Queue
unfolding push
enqueue s j = push (record s { store = put s.store j.id j }) j.id

-- enqueue_id
unfoldable pub enqueue_id : Queue → Text → Queue
unfolding push
enqueue_id s id = if is_empty (strip id) then s else push s (strip id)

unfoldable pub add_cancel : Queue → Text → Queue
add_cancel s id = record s { cancels = if mem id s.cancels then s.cancels else id ∷ s.cancels }

-- cancel
unfoldable pub cancel : Queue → Text → Queue
unfolding add_cancel put_state
cancel s id = put_state (add_cancel s id) id canceled (codes "Canceled")

-- kill
unfoldable pub set_killed : Text → Job → Job
set_killed reason j = record j { state = canceled; message = reason; error = none }

unfoldable pub kill : Queue → Text → Text → Queue
unfolding add_cancel set_killed
kill s id reason =
    let s' = add_cancel s id in record s' { store = (update_job s'.store id (set_killed reason)).1 }

-- pause and resume, once the job is found
unfoldable pub pause_found : Queue → Text → Option Job → Queue
unfolding put_state
pause_found s id none = s
pause_found s id (some j) = if is_queued j.state then put_state s id paused (codes "Paused") else s

unfoldable pub pause : Queue → Text → Queue
unfolding pause_found
pause s id = pause_found s id (find_job s.store id)

unfoldable pub resume_found : Queue → Text → Option Job → Queue
unfolding put_state
resume_found s id none = s
resume_found s id (some j) =
    if is_paused j.state then put_state s id queued (codes "Resumed") else s

unfoldable pub resume : Queue → Text → Queue
unfolding resume_found
resume s id = resume_found s id (find_job s.store id)
