-- ===== src/Scheduler/Running.antt =====
-- How many jobs of src/dubbing_pipeline/runtime/scheduler.py run at a time.
use dubbing_pipeline.Base.{ℕ, ◌≤◌, arith, Text, length, Option}
use dubbing_pipeline.Jobs.Models.{Job}
use dubbing_pipeline.Jobs.Store.{JobStore}
use dubbing_pipeline.Scheduler.Modes.{ModeKey, high, medium, low}
use dubbing_pipeline.Scheduler.State.{Scheduler, Settings, mode_cap}
use dubbing_pipeline.Scheduler.Invariant.{Inv, init-Inv}
use dubbing_pipeline.Scheduler.Books.{Books, in_mode, init-Books}
use dubbing_pipeline.Scheduler.World.{World, start_world}
use dubbing_pipeline.Scheduler.Histories.{OrderlyReach, OrderlyReach-both}

-- The jobs of the table are within the caps.
abbrev pub IsWithinCaps : Scheduler → Type 0
IsWithinCaps s =
    (length s.active_job_mode ≤ s.max_global)
    × ((m : ModeKey) → in_mode m s.active_job_mode ≤ mode_cap s m)

Books-IsWithinCaps : (s : Scheduler) → Inv s → Books s → IsWithinCaps s
Books-IsWithinCaps s i b = (omega (arith, i.capped.global_cap, b.global_count), by_mode)
  where
    by_mode : (m : ModeKey) → in_mode m s.active_job_mode ≤ mode_cap s m
    by_mode high = omega (arith, i.capped.high_cap, b.high_count)
    by_mode medium = omega (arith, i.capped.medium_cap, b.medium_count)
    by_mode low = omega (arith, i.capped.low_cap, b.low_count)

-- From a fresh scheduler on, in any order of calls in which a job is taken up only while it is not
-- running, and reported done or handed on only while it is: the heap is in dispatch order under distinct
-- sequence numbers; the jobs that were taken up and are not done are no more than the global cap, and in
-- each mode no more than its cap, and so are the counts; and in each phase the threads in it, those
-- between its semaphore and its count, and the free slots make up its limit.
pub OrderlyReach-IsWithinCaps :
    (show_delay : ℕ → Text) (enqueue_cb : Job → Option Text) (c : Settings) (store : JobStore)
    {u : World}
    → OrderlyReach show_delay enqueue_cb (start_world show_delay enqueue_cb c store) u
    → Inv u.sched × IsWithinCaps u.sched
OrderlyReach-IsWithinCaps show_delay enqueue_cb c store {u} r =
    let (i, b) = OrderlyReach-both show_delay enqueue_cb r (init-Inv c) (init-Books c) in
    (i, Books-IsWithinCaps u.sched i b)
