-- ===== src/Quotas/Submission.antt =====
-- `reserve_daily_jobs` and `reserve_submit_jobs` of src/dubbing_pipeline/security/quotas.py, where no Redis is
-- there, over the policy of `Jobs`.
use dubbing_pipeline.Base.{
  ℕ, pos, Bool, true, false, not, ◌&&◌, ◌||◌, Option, none, some, Text, [], is_some, ◌==◌,
  if◌then◌else◌, Outcome, ok, err, or_else,
}
use dubbing_pipeline.Jobs.Store.{JobStore, list_jobs}
use dubbing_pipeline.Jobs.Limits.{Settings, UserQuota, resolve_user_quotas}
use dubbing_pipeline.Jobs.Policy.{Role, is_admin, JobCounts, PolicyResult, evaluate_submission}
use dubbing_pipeline.Quotas.Local.{Reserved, day_key, jobs_of_day, reserve_daily, release_daily}

-- A call for a user: the settings, the store and the day, and what is asked for. A store is always there.
pub record Request : Type 0 where
  pub settings : Settings
  pub has_gpu : Bool
  pub is_today : Text → Bool
  pub day : Text
  pub store : JobStore
  pub user_id : Text
  pub role : Role
  pub overrides : Option UserQuota
  pub counts : Option JobCounts
  pub count : ℕ
  pub mode : Text
  pub device : Text

-- QuotaExceededError, for its two reasons, and the NameError of `raise HTTPException`, a name that the file
-- does not import
pub data Refusal : Type 0 where
  jobs_per_day_limit : ℕ → ℕ → Refusal
  submission_policy_limit : Refusal
  name_error : Refusal

-- JobReservation: the number of jobs, and whether a release gives anything back
pub record JobReservation : Type 0 where
  pub count : ℕ
  pub has_release : Bool
  pub released : Bool
  pub effective_mode : Text
  pub effective_device : Text

abbrev pub key_of : Request → Text
key_of r = day_key r.day r.user_id

-- JobReservation.release(count)
unfoldable pub release : Reserved → Text → JobReservation → Option ℕ → Reserved × JobReservation
release q key res asked =
    let n : ℕ = elim asked [ none ↦ res.count | some n ↦ n ] in
    if res.released
    then (q, res)
    else if not res.has_release || n == 0
    then (q, record res { released = true })
    else (release_daily q key n, record res { released = true })

-- Whether the dictionary of the overrides is empty.
unfoldable pub no_overrides : Option UserQuota → Bool
no_overrides none = true
no_overrides (some u) = not (
    is_some u.max_upload_bytes
    || (is_some u.jobs_per_day
        || (is_some u.max_concurrent_jobs
            || (is_some u.max_storage_bytes || (is_some u.max_running || is_some u.max_queued)))))

-- _admin_bypass
unfoldable pub admin_bypass : Role → Option UserQuota → Bool
unfolding no_overrides
admin_bypass role overrides = is_admin role && no_overrides overrides

abbrev nothing : JobReservation
nothing = record {
  count = 0;
  has_release = false;
  released = false;
  effective_mode = [];
  effective_device = [];
}

abbrev pub daily_cap_of : Request → ℕ
daily_cap_of r = (resolve_user_quotas r.settings r.overrides).jobs_per_day_per_user

unfoldable pub answered_daily :
    ℕ → ℕ → (Bool × ℕ) × Reserved → Reserved × Outcome Refusal JobReservation
answered_daily count limit ((true, current), q) = (
  q,
  ok (record {
    count = count;
    has_release = true;
    released = false;
    effective_mode = [];
    effective_device = [];
  }),
)
answered_daily count limit ((false, current), q) = (q, err (jobs_per_day_limit limit current))

-- reserve_daily_jobs
unfoldable pub reserve_daily_jobs : Request → Reserved → Reserved × Outcome Refusal JobReservation
unfolding answered_daily reserve_daily
reserve_daily_jobs r q =
    if admin_bypass r.role r.overrides || daily_cap_of r == 0
    then (q, ok nothing)
    else answered_daily r.count (daily_cap_of r) (
        reserve_daily q (key_of r) (jobs_of_day r.is_today r.store r.user_id) r.count
          (daily_cap_of r))

-- dict(overrides or {}) with "jobs_per_day" set to 0
unfoldable pub no_daily_cap : Option UserQuota → UserQuota
no_daily_cap none = record {
  max_upload_bytes = none;
  jobs_per_day = some (pos 0);
  max_concurrent_jobs = none;
  max_storage_bytes = none;
  max_running = none;
  max_queued = none;
}
no_daily_cap (some u) = record u { jobs_per_day = some (pos 0) }

unfoldable pub policy_of : Request → PolicyResult
unfolding no_daily_cap
policy_of r =
    evaluate_submission r.settings r.has_gpu r.is_today (list_jobs r.store 1000) r.user_id r.role
      r.mode r.device r.counts (some (no_daily_cap r.overrides))

-- The part of `reserve_submit_jobs` after the reservation.
unfoldable pub judge :
    Request
    → PolicyResult
    → Reserved × Outcome Refusal JobReservation
    → Reserved × Outcome Refusal JobReservation
unfolding release
judge r p (q, err e) = (q, err e)
judge r p (q, ok res) =
    if p.ok
    then (
      q,
      ok (record res {
        effective_mode = or_else p.effective_mode r.mode;
        effective_device = or_else p.effective_device r.device;
      }),
    )
    else (
      (release q (key_of r) res none).0,
      err (if p.status_code == 429 then submission_policy_limit else name_error),
    )

-- reserve_submit_jobs
unfoldable pub reserve_submit_jobs : Request → Reserved → Reserved × Outcome Refusal JobReservation
unfolding reserve_daily_jobs judge policy_of
reserve_submit_jobs r q = judge r (policy_of r) (reserve_daily_jobs r q)
