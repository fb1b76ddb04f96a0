-- ===== src/JobQueue/Stopped.antt =====
-- A job of src/dubbing_pipeline/jobs/queue_impl.py that is canceled before its run begins.
use dubbing_pipeline.Base.{
  List, [], ◌∷◌, true, false, if◌then◌else◌, Text, codes, text_eq_refl, ◌≡◌, refl, Bool-cases, inl,
  inr,
}
use dubbing_pipeline.Jobs.Models.{canceled}
use dubbing_pipeline.Jobs.Store.{find_job}
use dubbing_pipeline.JobQueue.State
use dubbing_pipeline.JobQueue.State.{Queue, mem, set_state, set_killed, add_cancel, put_state, push}
use dubbing_pipeline.JobQueue.Workers
use dubbing_pipeline.JobQueue.Workers.{
  World, Gate, pass_gate, Ending, finished, aborted, broke, set_ending, without, begin_run,
  is_paused_job, after_gate, work_on, take_first,
}
use dubbing_pipeline.JobQueue.Calls.{
  Call, start, enqueue, enqueue_id, cancel, kill, pause, resume, round, end_run, perform,
  perform_all, IsSubmission, AreSubmissions,
}
use dubbing_pipeline.JobQueue.Canceled.{
  runs, StartsNone, update_job-still, start-IsBarred, enqueue-IsBarred, enqueue_id-IsBarred,
  cancel-IsBarred, kill-IsBarred, pause-IsBarred, resume-IsBarred,
}
use dubbing_pipeline.JobQueue.Rounds.{
  IsStopped, pick-IsStopped, take_first-IsStopped, end_run-IsStopped,
}

module _ (id : Text) where
  pub perform-IsStopped :
      (gate : Gate) (w : World) (c : Call)
      → StartsNone gate
      → IsSubmission c
      → IsStopped id w
      → IsStopped id (perform gate w c)
  unfolding perform Workers.round
  perform-IsStopped gate w (start intake) h s st = record {
    barred = start-IsBarred id intake (w.queue) st.barred;
    idle = st.idle;
  }
  perform-IsStopped gate w (enqueue j) h s st = record {
    barred = enqueue-IsBarred id (w.queue) j s st.barred;
    idle = st.idle;
  }
  perform-IsStopped gate w (enqueue_id k) h s st = record {
    barred = enqueue_id-IsBarred id (w.queue) k st.barred;
    idle = st.idle;
  }
  perform-IsStopped gate w (cancel k) h s st = record {
    barred = cancel-IsBarred id (w.queue) k st.barred;
    idle = st.idle;
  }
  perform-IsStopped gate w (kill k reason) h s st = record {
    barred = kill-IsBarred id (w.queue) k reason st.barred;
    idle = st.idle;
  }
  perform-IsStopped gate w (pause k) h s st = record {
    barred = pause-IsBarred id (w.queue) k st.barred;
    idle = st.idle;
  }
  perform-IsStopped gate w (resume k) h s st = record {
    barred = resume-IsBarred id (w.queue) k st.barred;
    idle = st.idle;
  }
  perform-IsStopped gate w round h s st =
      pick-IsStopped id _ _ _ (take_first-IsStopped id gate w w.queue.waiting h st) st
  perform-IsStopped gate w (end_run k e) h s st = end_run-IsStopped id w k e st

  perform_all-IsStopped :
      (gate : Gate) (w : World) (cs : List Call)
      → StartsNone gate
      → AreSubmissions cs
      → IsStopped id w
      → IsStopped id (perform_all gate w cs)
  unfolding perform_all
  perform_all-IsStopped gate w [] h s st = st
  perform_all-IsStopped gate w (c ∷ cs) h s st =
      perform_all-IsStopped gate (perform gate w c) cs h (s.1)
        (perform-IsStopped gate w c h (s.0) st)

added :
    (id : Text) (cancels : List Text)
    → mem id (if mem id cancels then cancels else id ∷ cancels) ≡ true
unfolding mem
added id cancels = elim (Bool-cases (mem id cancels)) [
  | inl e ↦ rw e e
  | inr e ↦ rw (e, text_eq_refl id) refl
]

pub cancel-IsStopped :
    (gate : Gate) (w : World) (id : Text)
    → runs (find_job w.queue.store id) ≡ false
    → mem id w.active ≡ false
    → IsStopped id (perform gate w (cancel id))
unfolding perform State.cancel add_cancel put_state set_state
cancel-IsStopped gate w id still idle = record {
  barred = record {
    noted = added id w.queue.cancels;
    still =
        update_job-still id w.queue.store id (set_state canceled (codes "Canceled")) (λ j. refl)
          still;
  };
  idle = idle;
}

kill-IsStopped :
    (gate : Gate) (w : World) (id reason : Text)
    → runs (find_job w.queue.store id) ≡ false
    → mem id w.active ≡ false
    → IsStopped id (perform gate w (kill id reason))
unfolding perform State.kill add_cancel set_killed
kill-IsStopped gate w id reason still idle = record {
  barred = record {
    noted = added id w.queue.cancels;
    still = update_job-still id w.queue.store id (set_killed reason) (λ j. refl) still;
  };
  idle = idle;
}

-- A job that is canceled or killed while no worker runs it is never run by this queue again, whatever
-- calls on it follow: submissions, pauses and resumptions, `start`, rounds of the workers behind any gate
-- that starts no job itself, and the ends of other runs. This is so as long as the process lives: the set
-- of canceled ids is in memory, and a new process begins with an empty one.
pub canceled_never_runs :
    (gate : Gate) (w : World) (id : Text) (cs : List Call)
    → StartsNone gate
    → AreSubmissions cs
    → runs (find_job w.queue.store id) ≡ false
    → mem id w.active ≡ false
    → IsStopped id (perform_all gate (perform gate w (cancel id)) cs)
      × ((reason : Text) → IsStopped id (perform_all gate (perform gate w (kill id reason)) cs))
canceled_never_runs gate w id cs h s still idle = (
  perform_all-IsStopped id gate (perform gate w (cancel id)) cs h s
      (cancel-IsStopped gate w id still idle),
  λ reason.
      perform_all-IsStopped id gate (perform gate w (kill id reason)) cs h s
        (kill-IsStopped gate w id reason still idle),
)
