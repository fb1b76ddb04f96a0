-- ===== src/QueueManager/Routing.antt =====
-- Where a submission to src/dubbing_pipeline/queue/manager.py goes.
use mathlib.Core.List.{Perm}
use dubbing_pipeline.Base.{
  ℕ, ℤ, ◌≡◌, ◌⊎◌, inl, inr, refl, ap, arith, Bool, true, false, ◌&&◌, ◌∷◌, Text, Bool-cases, strip,
  is_empty,
}
use dubbing_pipeline.Jobs.Store.{JobStore}
use dubbing_pipeline.Fallback.{Moment}
use dubbing_pipeline.Fallback.Scan.{queue_ids, submitted_job}
use dubbing_pipeline.QueueManager.{Manager, redis_active, to_redis, to_local, route_job}

-- A submission, while the service takes jobs, of a job whose name is not blank is not lost: Redis
-- has it, which was in use and took it, or the queue of the scheduler has it, beside what was
-- there.
pub route_job_lem :
    (show : ℕ → Text) (redis_ok redis_takes : Bool) (moment : Moment) (m : Manager)
    (store : JobStore)
    → (job_id mode device : Text) (priority : ℤ) → is_empty (strip job_id) ≡ false
    → moment.draining ≡ false
    → let r = route_job show redis_ok redis_takes moment m store job_id mode device priority in
      ((r.0 ≡ to_redis) × (redis_active redis_ok m ≡ true) × (redis_takes ≡ true))
      ⊎ ((r.0 ≡ to_local true) × Perm (queue_ids r.1.local) (strip job_id ∷ queue_ids m.local))
unfolding route_job
route_job_lem show redis_ok redis_takes moment m store job_id mode device priority e live =
    elim (Bool-cases (redis_active redis_ok m && redis_takes)) [
      | inl b ↦ rw b (inl (refl, ground (arith, b), ground (arith, b)))
      | inr b ↦
          let (a, p) = submitted_job show moment m.local store job_id mode device priority e live in
          rw b (inr (ap to_local a, p))
    ]
