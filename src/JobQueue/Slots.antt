-- ===== src/JobQueue/Slots.antt =====
-- The scheduler counts a job from its dispatch until the run of src/dubbing_pipeline/jobs/queue_impl.py
-- calls `on_job_done` at its end.
use dubbing_pipeline.Base.{
  suc, length, List, [], ◌∷◌, some, true, if◌then◌else◌, Text, get, pop, ◌≡◌,
}
use dubbing_pipeline.Scheduler.Modes.{ModeKey, count_at}
use dubbing_pipeline.Scheduler.Books.{Books, in_mode}
use dubbing_pipeline.Scheduler.State.{Scheduler}
use dubbing_pipeline.Scheduler.Ops.{on_job_done}
use dubbing_pipeline.JobQueue.State.{mem}
use dubbing_pipeline.JobQueue.Workers.{World, Gate}
use dubbing_pipeline.JobQueue.Calls.{Call, end_run, perform}

pub record System : Type 0 where
  pub scheduler : Scheduler
  pub world : World

-- sched.on_job_done(job_id), at the end of a run that has begun
unfoldable pub release : Scheduler → World → Call → Scheduler
release s w (end_run id e) = if mem id w.active then on_job_done s id else s
release s w _ = s

unfoldable pub act : Gate → System → Call → System
unfolding release
act gate s c = record {
  scheduler = release s.scheduler s.world c;
  world = perform gate (s.world) c;
}

unfoldable pub act_all : Gate → System → List Call → System
act_all gate s [] = s
act_all gate s (c ∷ cs) = act_all gate (act gate s c) cs

module _ (id : Text) (m : ModeKey) where
  abbrev HasSlot : Scheduler → Type 0
  HasSlot s = get s.active_job_mode id ≡ some m

-- The end of a run is that of a job in the table of the scheduler.
abbrev pub IsCounted : System → Call → Type 0
IsCounted s (end_run k e) =
    mem k s.world.active ≡ true → (n : ModeKey) × (get s.scheduler.active_job_mode k ≡ some n)
IsCounted s _ = Unit

unfoldable pub AreCounted : Gate → System → List Call → Type 0
AreCounted gate s [] = Unit
AreCounted gate s (c ∷ cs) = IsCounted s c × AreCounted gate (act gate s c) cs

-- The counts stand one above the other jobs of the table, in all and for the mode.
TakesSlot : Scheduler → Text → ModeKey → Type 0
TakesSlot s id m =
    (s.active_global ≡ suc (length (pop s.active_job_mode id)))
    × (count_at s.active_by_mode m ≡ suc (in_mode m (pop s.active_job_mode id)))
