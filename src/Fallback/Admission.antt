-- ===== src/Fallback/Admission.antt =====
-- Whether a job may run: `before_job_run` and `user_counts` of
-- src/dubbing_pipeline/queue/fallback_local_queue.py.
use dubbing_pipeline.Base.{
  ℕ, ◌+◌, ◌≤◌, ◌≡◌, ◌≢◌, ◌↔◌, refl, ◌∙◌, arith, Bool, true, false, ◌&&◌, List, [], ◌∷◌, Text,
  text_eq, strip, is_empty, Bool-cases, inl, inr, Dict, count_if, if◌then◌else◌,
}
use dubbing_pipeline.Jobs.Models.{Job, is_running}
use dubbing_pipeline.Jobs.Store.{
  JobStore, find_job, update_job, changed, find_job-update_job, list_jobs,
}
use dubbing_pipeline.Jobs.Limits.{UserQuota, Settings, resolve_user_quotas}
use dubbing_pipeline.Jobs.Policy.{JobCounts, count_user_jobs}
use dubbing_pipeline.Fallback.{
  Fallback, mem, discard, tally, user_counts, get_user_quota, wait_fields, before_job_run,
}

added : JobCounts → JobCounts → JobCounts
added a b = record {
  running = a.running + b.running;
  queued = a.queued + b.queued;
  today = a.today + b.today;
}

tally_lem :
    (is_today : Text → Bool) (uid : Text) (jobs : List Job) (c : JobCounts)
    → tally is_today uid jobs c ≡ added c (count_user_jobs is_today jobs uid)
unfolding tally added count_user_jobs
tally_lem is_today uid [] c = ground arith
tally_lem is_today uid (j ∷ jobs) c = elim (Bool-cases (text_eq j.owner_id uid)) [
  | inl b ↦ rw b (tally_lem is_today uid jobs _ ∙ ground arith)
  | inr b ↦ rw b (tally_lem is_today uid jobs c ∙ ground arith)
]

-- The counts that the queue reports for a user are those that the submission policy counts itself
-- over the latest 2000 jobs.
pub user_counts_lem :
    (is_today : Text → Bool) (store : JobStore) (user_id : Text)
    → user_counts is_today store user_id ≡ count_user_jobs is_today (list_jobs store 2000) user_id
unfolding user_counts
user_counts_lem is_today store user_id =
    tally_lem is_today user_id (list_jobs store 2000) _ ∙ unfold added in ground arith

mem-discard : (x : Text) (s : List Text) → mem x (discard x s) ≡ false
unfolding mem discard
mem-discard x [] = refl
mem-discard x (y ∷ s) = ground (arith, mem-discard x s)

module _ (settings : Settings) (rows : Dict UserQuota) (job_id user_id : Text) (q : Fallback)
    (store : JobStore) where
  abbrev pub cap : ℕ
  cap =
      (resolve_user_quotas settings
        (get_user_quota rows (strip user_id))).max_concurrent_jobs_per_user

  abbrev pub running_now : ℕ
  running_now =
      count_if (λ j. text_eq j.owner_id (strip user_id) && is_running j.state)
        (list_jobs store 2000)

  held_back :
      (before_job_run settings rows job_id user_id q store).0 ≡ false
      → before_job_run settings rows job_id user_id q store ≡ (
        false,
        record q { seen = discard job_id q.seen },
        (update_job store job_id wait_fields).1,
      )
  unfolding before_job_run
  held_back h = ground arith

  -- A job is held back exactly if its user is known and has a cap on running jobs that is reached.
  -- Then it is stored as queued again, where it is stored, it is no longer among the jobs seen,
  -- and no other job is touched; otherwise nothing changes.
  pub before_job_run_lem :
      let r = before_job_run settings rows job_id user_id q store in
      ((r.0 ≡ false) ↔ ((is_empty (strip user_id) ≡ false) × (cap ≢ 0) × (cap ≤ running_now)))
      × (r.0 ≡ true → (r.1 ≡ q) × (r.2 ≡ store))
      × (r.0 ≡ false
          → (mem job_id r.1.seen ≡ false)
            × ((k : Text)
                → find_job r.2 k ≡ (
                    if text_eq job_id k
                    then changed wait_fields (find_job store job_id)
                    else find_job store k)))
  unfolding before_job_run
  before_job_run_lem = (
    ground arith,
    ground arith,
    (λ h.
        rw (held_back h)
          (mem-discard job_id q.seen, λ k. find_job-update_job store job_id k wait_fields)),
  )
