-- ===== src/JobQueue/Canceled.antt =====
-- Canceled jobs in src/dubbing_pipeline/jobs/queue_impl.py.
use dubbing_pipeline.Base.{
  List, [], ◌∷◌, Option, none, some, Bool, true, false, ◌||◌, if◌then◌else◌, Text, codes, text_eq,
  ◌≡◌, refl, get, get-put, strip,
}
use dubbing_pipeline.Jobs.Models.{
  Job, JobState, queued, paused, running, done, failed, canceled, is_queued, is_running,
}
use dubbing_pipeline.Jobs.Store.{
  JobStore, find_job, update_job, find_job-update_job, changed, list_jobs,
}
use dubbing_pipeline.JobQueue.State
use dubbing_pipeline.JobQueue.State.{
  Queue, Intake, mem, takes, set_state, set_killed, put_state, push, recover_one, recover,
  add_cancel, pause_found, resume_found, is_paused,
}
use dubbing_pipeline.JobQueue.Workers.{Gate}

abbrev pub runs : Option Job → Bool
runs none = false
runs (some j) = is_running j.state

-- The job is marked as canceled, and does not run.
pub record IsBarred (id : Text) (q : Queue) : Type 0 where
  pub noted : mem id q.cancels ≡ true
  pub still : runs (find_job q.store id) ≡ false

-- A gate that makes no job run: what backends do before a run.
abbrev pub StartsNone : Gate → Type 0
StartsNone none = Unit
StartsNone (some gate) =
    (store : JobStore) (k id : Text)
    → runs (find_job store id) ≡ false
    → runs (find_job (gate store k).0 id) ≡ false

module _ (id : Text) where
  pub update_job-still :
      (store : JobStore) (k : Text) (f : Job → Job)
      → ((j : Job) → is_running (f j).state ≡ false)
      → runs (find_job store id) ≡ false
      → runs (find_job (update_job store k f).1 id) ≡ false
  update_job-still store k f h still =
      rw (find_job-update_job store k id f) (either (text_eq k id) (find_job store k))
    where
      either :
          (b : Bool) (o : Option Job) → runs (if b then changed f o else find_job store id) ≡ false
      either true none = refl
      either true (some j) = h j
      either false o = still

  pub put_state-IsBarred :
      (q : Queue) (k : Text) (state : JobState) (message : Text)
      → is_running state ≡ false
      → IsBarred id q
      → IsBarred id (put_state q k state message)
  unfolding put_state set_state
  put_state-IsBarred q k state message h b = record {
    noted = b.noted;
    still = update_job-still q.store k (set_state state message) (λ j. h) b.still;
  }

  pub push-IsBarred : (q : Queue) (k : Text) → IsBarred id q → IsBarred id (push q k)
  unfolding push
  push-IsBarred q k b = record { noted = b.noted; still = b.still }

  pick-IsBarred :
      (b : Bool) (x y : Queue) → IsBarred id x → IsBarred id y → IsBarred id (if b then x else y)
  pick-IsBarred true x y v w = v
  pick-IsBarred false x y v w = w

  recover_one-IsBarred :
      (intake : Intake) (q : Queue) (j : Job) → IsBarred id q → IsBarred id (recover_one intake q j)
  unfolding recover_one
  recover_one-IsBarred intake q j b =
      let put = put_state-IsBarred q j.id queued (codes "Recovered after restart") refl b in
      pick-IsBarred _ _ _ (pick-IsBarred (takes intake j.id) _ _ put (push-IsBarred _ j.id put)) b

  recover-IsBarred :
      (intake : Intake) (q : Queue) (js : List Job)
      → IsBarred id q
      → IsBarred id (recover intake q js)
  unfolding recover
  recover-IsBarred intake q [] b = b
  recover-IsBarred intake q (j ∷ js) b =
      recover-IsBarred intake (recover_one intake q j) js (recover_one-IsBarred intake q j b)

  pub start-IsBarred :
      (intake : Intake) (q : Queue) → IsBarred id q → IsBarred id (State.start intake q)
  unfolding State.start
  start-IsBarred intake q b =
      let after = recover-IsBarred intake q (list_jobs q.store 1000) b in
      pick-IsBarred q.started _ _ b (record { noted = after.noted; still = after.still })

  add_cancel-IsBarred : (q : Queue) (k : Text) → IsBarred id q → IsBarred id (add_cancel q k)
  unfolding add_cancel mem
  add_cancel-IsBarred q k b = record { noted = more (mem k q.cancels); still = b.still }
    where
      more : (c : Bool) → mem id (if c then q.cancels else k ∷ q.cancels) ≡ true
      more true = b.noted
      more false = rw b.noted (or_true (text_eq id k))
        where
          or_true : (x : Bool) → (x || true) ≡ true
          or_true true = refl
          or_true false = refl

  pub enqueue-IsBarred :
      (q : Queue) (j : Job)
      → is_queued j.state ≡ true
      → IsBarred id q
      → IsBarred id (State.enqueue q j)
  unfolding State.enqueue find_job
  enqueue-IsBarred q j h b = record {
    noted = b.noted;
    still = rw (get-put q.store j.id id j) (either (text_eq j.id id));
  }
    where
      queued_still : (state : JobState) → is_queued state ≡ true → is_running state ≡ false
      queued_still queued h = refl
      queued_still running h = absurd (cc)
      queued_still paused h = refl
      queued_still done h = refl
      queued_still failed h = refl
      queued_still canceled h = refl

      either : (e : Bool) → runs (if e then some j else get q.store id) ≡ false
      either true = queued_still j.state h
      either false = b.still

  pub enqueue_id-IsBarred :
      (q : Queue) (k : Text) → IsBarred id q → IsBarred id (State.enqueue_id q k)
  unfolding State.enqueue_id
  enqueue_id-IsBarred q k b = pick-IsBarred _ _ _ b (push-IsBarred q (strip k) b)

  pub cancel-IsBarred : (q : Queue) (k : Text) → IsBarred id q → IsBarred id (State.cancel q k)
  unfolding State.cancel
  cancel-IsBarred q k b =
      put_state-IsBarred (add_cancel q k) k canceled (codes "Canceled") refl
        (add_cancel-IsBarred q k b)

  pub kill-IsBarred :
      (q : Queue) (k reason : Text) → IsBarred id q → IsBarred id (State.kill q k reason)
  unfolding State.kill set_killed
  kill-IsBarred q k reason b =
      let noted = add_cancel-IsBarred q k b in
      record {
        noted = noted.noted;
        still = update_job-still _ k (set_killed reason) (λ j. refl) noted.still;
      }

  pub pause-IsBarred : (q : Queue) (k : Text) → IsBarred id q → IsBarred id (State.pause q k)
  unfolding State.pause pause_found
  pause-IsBarred q k b = found (find_job q.store k)
    where
      found : (o : Option Job) → IsBarred id (pause_found q k o)
      found none = b
      found (some j) = pick-IsBarred _ _ _ (put_state-IsBarred q k paused (codes "Paused") refl b) b

  pub resume-IsBarred : (q : Queue) (k : Text) → IsBarred id q → IsBarred id (State.resume q k)
  unfolding State.resume resume_found
  resume-IsBarred q k b = found (find_job q.store k)
    where
      found : (o : Option Job) → IsBarred id (resume_found q k o)
      found none = b
      found (some j) =
          pick-IsBarred _ _ _ (put_state-IsBarred q k queued (codes "Resumed") refl b) b
