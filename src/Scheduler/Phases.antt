-- ===== src/Scheduler/Phases.antt =====
-- The context manager `Scheduler.phase` of src/dubbing_pipeline/runtime/scheduler.py, in the four steps that
-- other threads may come between: the semaphore is taken and given back outside the lock, the count is
-- changed under it. A name that `phase_of` does not know takes no step.
use dubbing_pipeline.Base.{◌+◌, ◌-◌, Option, none, some, ◌==◌, if◌then◌else◌}
use dubbing_pipeline.Scheduler.State.{Phase, phase_at, set_phase, Scheduler}

unfoldable pub acquired : Scheduler → Phase → Scheduler
acquired s p = record s {
  phase_sem = set_phase s.phase_sem p (phase_at s.phase_sem p - 1);
  entering = set_phase s.entering p (phase_at s.entering p + 1);
}

-- `sem.acquire()`; `none` is a semaphore that blocks.
unfoldable pub acquire : Scheduler → Phase → Option Scheduler
unfolding acquired
acquire s p = if phase_at s.phase_sem p == 0 then none else some (acquired s p)

-- The first block under the lock.
unfoldable pub count_in : Scheduler → Phase → Scheduler
count_in s p = record s {
  active_phase = set_phase s.active_phase p (phase_at s.active_phase p + 1);
  entering = set_phase s.entering p (phase_at s.entering p - 1);
}

-- The block under the lock in `finally`.
unfoldable pub count_out : Scheduler → Phase → Scheduler
count_out s p = record s {
  active_phase = set_phase s.active_phase p (phase_at s.active_phase p - 1);
  leaving = set_phase s.leaving p (phase_at s.leaving p + 1);
}

-- `sem.release()`
unfoldable pub give_back : Scheduler → Phase → Scheduler
give_back s p = record s {
  phase_sem = set_phase s.phase_sem p (phase_at s.phase_sem p + 1);
  leaving = set_phase s.leaving p (phase_at s.leaving p - 1);
}
