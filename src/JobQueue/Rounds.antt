-- ===== src/JobQueue/Rounds.antt =====
-- The workers of src/dubbing_pipeline/jobs/queue_impl.py leave a canceled job alone.
use mathlib.Core.Bool.{true≢false}
use dubbing_pipeline.Base.{
  List, [], ◌∷◌, Option, none, some, Bool, true, false, if◌then◌else◌, Text, codes, text_eq,
  text_eq_sound, text_eq_refl, ◌≡◌, refl, sym, ◌∙◌, arith, Bool-cases, inl, inr,
}
use dubbing_pipeline.Jobs.Models.{Job, running, canceled, is_running}
use dubbing_pipeline.Jobs.Store.{JobStore, find_job, find_job-update_job}
use dubbing_pipeline.JobQueue.State.{mem, set_state, put_state}
use dubbing_pipeline.JobQueue.Workers
use dubbing_pipeline.JobQueue.Workers.{
  World, Gate, pass_gate, Ending, finished, aborted, broke, set_ending, without, begin_run,
  is_paused_job, after_gate, work_on, take_first,
}
use dubbing_pipeline.JobQueue.Canceled.{
  runs, IsBarred, StartsNone, update_job-still, put_state-IsBarred, push-IsBarred,
}

-- The job is barred, and no worker runs it.
pub record IsStopped (id : Text) (w : World) : Type 0 where
  pub barred : IsBarred id (w.queue)
  pub idle : mem id w.active ≡ false

module _ (id : Text) where
  pub pick-IsStopped :
      (b : Bool) (x y : World) → IsStopped id x → IsStopped id y → IsStopped id (if b then x else y)
  pick-IsStopped true x y v w = v
  pick-IsStopped false x y v w = w

  other_job :
      (k : Text) (cancels : List Text)
      → mem id cancels ≡ true
      → mem k cancels ≡ false
      → text_eq k id ≡ false
  other_job k cancels h n = elim (Bool-cases (text_eq k id)) [
    | inl same ↦ absurd (true≢false (sym h ∙ (rw (text_eq_sound k id same) at n)))
    | inr e ↦ e
  ]

  no_twin : (k : Text) → text_eq k id ≡ false → text_eq id k ≡ false
  no_twin k h = elim (Bool-cases (text_eq id k)) [
    | inl same ↦ absurd (true≢false (sym (reversed (text_eq_sound id k same)) ∙ h))
    | inr e ↦ e
  ]
    where
      reversed : id ≡ k → text_eq k id ≡ true
      reversed e = rw e (text_eq_refl k)

  pub begin_run-IsStopped :
      (w : World) (k : Text) (o : Option Job) → IsStopped id w → IsStopped id (begin_run w k o)
  unfolding begin_run put_state mem
  begin_run-IsStopped w k none st = st
  begin_run-IsStopped w k (some j) st = elim (Bool-cases (mem k w.queue.cancels)) [
    | inl e ↦ rw e (record {
      barred =
          put_state-IsBarred id (w.queue) k canceled (codes "Canceled before start") refl st.barred;
      idle = st.idle;
    })
    | inr e ↦
        let other = other_job k w.queue.cancels st.barred.noted e in
        rw e (record { barred = started_other k other; idle = not_added k (no_twin k other) })
  ]
    where
      started_other :
          (k : Text)
          → text_eq k id ≡ false
          → IsBarred id (put_state (w.queue) k running (codes "Starting"))
      started_other k other = record {
        noted = st.barred.noted;
        still =
            rw
              (find_job-update_job w.queue.store k id (set_state running (codes "Starting")), other)
              st.barred.still;
      }

      not_added : (k : Text) → text_eq id k ≡ false → mem id (k ∷ w.active) ≡ false
      not_added k e = rw e st.idle

  without-mem : (k : Text) (xs : List Text) → mem id xs ≡ false → mem id (without k xs) ≡ false
  unfolding without mem
  without-mem k [] h = refl
  without-mem k (x ∷ xs) h = ground (arith, without-mem k xs)

  after_gate-IsStopped :
      (w : World) (k : Text) (store : JobStore) (b : Bool)
      → IsStopped id w
      → runs (find_job store id) ≡ false
      → IsStopped id (after_gate w k (store, b))
  unfolding after_gate
  after_gate-IsStopped w k store false st still = record {
    barred = record { noted = st.barred.noted; still = still };
    idle = st.idle;
  }
  after_gate-IsStopped w k store true st still =
      begin_run-IsStopped (record w { queue = record (w.queue) { store = store } }) k
        (find_job store k)
        (record { barred = record { noted = st.barred.noted; still = still }; idle = st.idle })

  gate-still :
      (gate : Gate) (store : JobStore) (k : Text)
      → StartsNone gate
      → runs (find_job store id) ≡ false
      → runs (find_job (pass_gate gate store k).0 id) ≡ false
  unfolding pass_gate
  gate-still none store k h still = still
  gate-still (some gate) store k h still = h store k id still

  work_on-IsStopped :
      (gate : Gate) (w : World) (k : Text)
      → StartsNone gate
      → IsStopped id w
      → IsStopped id (work_on gate w k)
  unfolding work_on
  work_on-IsStopped gate w k h st =
      pick-IsStopped _ _ _
        (record { barred = push-IsBarred id (w.queue) k st.barred; idle = st.idle })
        (after_gate-IsStopped w k _ _ st (gate-still gate w.queue.store k h st.barred.still))

  pub take_first-IsStopped :
      (gate : Gate) (w : World) (ids : List Text)
      → StartsNone gate
      → IsStopped id w
      → IsStopped id (take_first gate w ids)
  unfolding take_first
  take_first-IsStopped gate w [] h st = st
  take_first-IsStopped gate w (k ∷ rest) h st =
      work_on-IsStopped gate (record w { queue = record (w.queue) { waiting = rest } }) k h
        (record {
          barred = record { noted = st.barred.noted; still = st.barred.still };
          idle = st.idle;
        })

  pub end_run-IsStopped :
      (w : World) (k : Text) (e : Ending) → IsStopped id w → IsStopped id (Workers.end_run w k e)
  unfolding Workers.end_run
  end_run-IsStopped w k e st =
      pick-IsStopped _ _ _
        (record {
          barred = record {
            noted = st.barred.noted;
            still = update_job-still id w.queue.store k (set_ending e) (ended e) st.barred.still;
          };
          idle = without-mem k w.active st.idle;
        })
        st
    where
      ended : (e : Ending) (j : Job) → is_running (set_ending e j).state ≡ false
      ended finished j = refl
      ended aborted j = refl
      ended (broke m) j = refl
