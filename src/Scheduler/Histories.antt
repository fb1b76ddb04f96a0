-- ===== src/Scheduler/Histories.antt =====
-- Histories of src/dubbing_pipeline/runtime/scheduler.py in which each job is taken up only while it
-- is not running, and is done only while it is.
use mathlib.Core.Path.{subst}
use mathlib.Core.Option.{none-ne-some, some-injective}
use dubbing_pipeline.Base.{
  ℕ, ℤ, ◌≡◌, refl, ap, arith, Bool, true, false, Option, none, some, Text, get, Bool-cases, inl,
  inr,
}
use dubbing_pipeline.Jobs.Models.{Job, is_queued}
use dubbing_pipeline.Jobs.Store.{JobStore, find_job}
use dubbing_pipeline.Scheduler.Modes.{ModeKey}
use dubbing_pipeline.Scheduler.Heap.{JobRecord}
use dubbing_pipeline.Scheduler.State.{Phase, Scheduler, Settings}
use dubbing_pipeline.Scheduler.Submit.{
  Verdict, keep_mode, degrade, delay, submit, submit_as, enqueue_record,
}
use dubbing_pipeline.Scheduler.Ops.{drop, reprioritize, request_stop}
use dubbing_pipeline.Scheduler.Dispatch.{
  Round, stopped, waited, dispatched, dispatch, enqueue_one, enqueue_found, hand_over,
}
use dubbing_pipeline.Scheduler.Phases.{acquire, count_in, count_out, give_back}
use dubbing_pipeline.Scheduler.Invariant.{Inv, init-Inv}
use dubbing_pipeline.Scheduler.Takes.{dispatch_waits}
use dubbing_pipeline.Scheduler.Books.{Books, init-Books, on_job_done-Books, dispatch-Books}
use dubbing_pipeline.Scheduler.World.{
  World, Step, submits, finishes, drops, reorders, polls, enqueues, acquires, counts_in, counts_out,
  gives_back, stops, Step-Inv, start_world,
}

-- The counts and the table are as they were.
abbrev SameActive : Scheduler → Scheduler → Type 0
SameActive s t =
    (t.active_global ≡ s.active_global)
    × (t.active_by_mode ≡ s.active_by_mode)
    × (t.active_job_mode ≡ s.active_job_mode)

keep-Books : {s t : Scheduler} → SameActive s t → Books s → Books t
keep-Books {s} {t} (g, m, j) v = record {
  unique = rw j v.unique;
  global_count = rw (j, g) v.global_count;
  high_count = rw (j, m) v.high_count;
  medium_count = rw (j, m) v.medium_count;
  low_count = rw (j, m) v.low_count;
}

submit_as_same :
    (show : ℕ → Text) (s : Scheduler) (store : JobStore) (job : JobRecord) (mode : Text)
    → (now jitter : ℕ) (r : Verdict) → SameActive s (submit_as show s store job mode now jitter r).0
unfolding submit_as enqueue_record
submit_as_same show s store job mode now jitter keep_mode = (refl, refl, refl)
submit_as_same show s store job mode now jitter degrade = (refl, refl, refl)
submit_as_same show s store job mode now jitter delay = (refl, refl, refl)

submit_same :
    (show : ℕ → Text) (draining : Bool) (now jitter : ℕ) (s : Scheduler) (store : JobStore)
    → (job : JobRecord) {t : Scheduler} {store' : JobStore}
    → submit show draining now jitter s store job ≡ some (t, store')
    → SameActive s t
unfolding submit
submit_same show true now jitter s store job e = absurd (none-ne-some _ e)
submit_same show false now jitter s store job e =
    subst (SameActive s) (ap (λ p. p.0) (some-injective _ _ e))
      (submit_as_same show s store job _ now jitter _)

drop_same : (s : Scheduler) (id : Text) → SameActive s (drop s id).0
unfolding drop
drop_same s id = ground arith

reprioritize_same : (s : Scheduler) (id : Text) (pr : ℤ) → SameActive s (reprioritize s id pr).0
unfolding reprioritize
reprioritize_same s id pr = ground arith

acquire_same : (s : Scheduler) (p : Phase) {t : Scheduler} → acquire s p ≡ some t → SameActive s t
unfolding acquire
acquire_same s p e = ground arith

count_in_same : (s : Scheduler) (p : Phase) → SameActive s (count_in s p)
unfolding count_in
count_in_same s p = (refl, refl, refl)

count_out_same : (s : Scheduler) (p : Phase) → SameActive s (count_out s p)
unfolding count_out
count_out_same s p = (refl, refl, refl)

give_back_same : (s : Scheduler) (p : Phase) → SameActive s (give_back s p)
unfolding give_back
give_back_same s p = (refl, refl, refl)

stop_same : (s : Scheduler) → SameActive s (request_stop s)
unfolding request_stop
stop_same s = (refl, refl, refl)

hand_over-Books :
    (o : Option Text) (job : Job) (id : Text) (s : Scheduler) (store : JobStore) {m : ModeKey}
    → get s.active_job_mode id ≡ some m
    → Books s
    → Books (hand_over o job id s store).0
hand_over-Books none job id s store h v = v
hand_over-Books (some why) job id s store h v = on_job_done-Books s id h v

enqueue_one-Books :
    (cb : Job → Option Text) (rec : JobRecord) (s : Scheduler) (store : JobStore) {m : ModeKey}
    → get s.active_job_mode rec.job_id ≡ some m
    → Books s
    → Books (enqueue_one cb rec s store).0
unfolding enqueue_one
enqueue_one-Books cb rec s store h v = by_job (find_job store rec.job_id)
  where
    by_job : (o : Option Job) → Books (enqueue_found cb rec s store o).0
    by_job none = on_job_done-Books s rec.job_id h v
    by_job (some job) = elim (Bool-cases (is_queued job.state)) [
      | inl b ↦ rw b (hand_over-Books _ _ rec.job_id s _ h v)
      | inr b ↦ rw b (on_job_done-Books s rec.job_id h v)
    ]

stopped_same : (now : ℕ) (s t : Scheduler) → dispatch now s ≡ (stopped, t) → SameActive s t
unfolding dispatch
stopped_same now s t e = ground arith

-- A record that a round takes is of a job that is not running.
abbrev pub TakesIdle : Scheduler → Round → Type 0
TakesIdle s (dispatched rec) = get s.active_job_mode rec.job_id ≡ none
TakesIdle s _ = Unit

abbrev pub IsRunning : Scheduler → Text → Type 0
IsRunning s id = (m : ModeKey) × (get s.active_job_mode id ≡ some m)

module _ (show_delay : ℕ → Text) (enqueue_cb : Job → Option Text) where
  abbrev pub IsOrderly : {w u : World} → Step show_delay enqueue_cb w u → Type 0
  IsOrderly {w} (finishes id) = IsRunning w.sched id
  IsOrderly {w} (polls now e) = TakesIdle w.sched (dispatch now w.sched).0
  IsOrderly {w} (enqueues rec e) = IsRunning w.sched rec.job_id
  IsOrderly _ = Unit

  pub data OrderlyReach (w : World) : World → Type 0 where
    here : OrderlyReach w w
    then_ :
        {u v : World}
        → OrderlyReach w u
        → (st : Step show_delay enqueue_cb u v) → IsOrderly st
        → OrderlyReach w v

  polls-Books :
      (now : ℕ) (s : Scheduler) (r : Round) (t : Scheduler)
      → dispatch now s ≡ (r, t)
      → TakesIdle s r
      → Inv s
      → Books s
      → Books t
  polls-Books now s (dispatched rec) t e h i v = dispatch-Books now s i e h v
  polls-Books now s (waited ms) t e h i v =
      let w = dispatch_waits now s e in keep-Books (w.same_global, w.same_mode, w.same_jobs) v
  polls-Books now s stopped t e h i v = keep-Books (stopped_same now s t e) v

  Step-Books :
      {w u : World} (st : Step show_delay enqueue_cb w u)
      → IsOrderly st
      → Inv w.sched
      → Books w.sched
      → Books u.sched
  Step-Books {w} (submits draining now jitter job e) o i v =
      keep-Books (submit_same show_delay draining now jitter w.sched w.store job e) v
  Step-Books {w} (finishes id) o i v = on_job_done-Books w.sched id o.1 v
  Step-Books {w} (drops id) o i v = keep-Books (drop_same w.sched id) v
  Step-Books {w} (reorders id pr) o i v = keep-Books (reprioritize_same w.sched id pr) v
  Step-Books {w} (polls now e) o i v = polls-Books now w.sched _ _ refl o i v
  Step-Books {w} (enqueues rec e) o i v = enqueue_one-Books enqueue_cb rec w.sched w.store o.1 v
  Step-Books {w} (acquires p e) o i v = keep-Books (acquire_same w.sched p e) v
  Step-Books {w} (counts_in p h) o i v = keep-Books (count_in_same w.sched p) v
  Step-Books {w} (counts_out p h) o i v = keep-Books (count_out_same w.sched p) v
  Step-Books {w} (gives_back p h) o i v = keep-Books (give_back_same w.sched p) v
  Step-Books {w} stops o i v = keep-Books (stop_same w.sched) v

  pub OrderlyReach-both :
      {w u : World} → OrderlyReach w u → Inv w.sched → Books w.sched → Inv u.sched × Books u.sched
  OrderlyReach-both here i v = (i, v)
  OrderlyReach-both (then_ r st o) i v =
      let (i', v') = OrderlyReach-both r i v in
      (Step-Inv show_delay enqueue_cb st i', Step-Books st o i' v')

  -- From a fresh scheduler on, in any order of calls in which a job is taken up only while it is not
  -- running, and reported done or handed on only while it is: the number of running jobs, in all and
  -- for each mode, is that of the table of running jobs, in which no job is twice.
  pub OrderlyReach-Books :
      (c : Settings) (store : JobStore) {u : World}
      → OrderlyReach (start_world show_delay enqueue_cb c store) u
      → Books u.sched
  OrderlyReach-Books c store r = (OrderlyReach-both r (init-Inv c) (init-Books c)).1
