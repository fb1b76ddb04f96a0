-- ===== src/Jobs/Policy.antt =====
-- src/dubbing_pipeline/jobs/policy.py: what may be submitted and what may be dispatched. Whether CUDA
-- is there and whether a time lies on the present day are parameters; audit and log lines are left
-- out.
pub mod Submission
pub mod DispatchNet
pub mod Examples
use dubbing_pipeline.Base.{
  ℕ, ℤ, pos, pos_part, ◌+◌, Bool, true, false, not, ◌&&◌, ◌||◌, List, [], ◌∷◌, ◌++◌, Option, none,
  some, Text, codes, text_eq, strip, lower, or_else, ltb, leb, count_if, show_ℕ, if◌then◌else◌,
}
use dubbing_pipeline.Jobs.Models.{Job, is_queued, is_running}
use dubbing_pipeline.Jobs.Limits.{Settings, UserQuota, or_legacy, overridden, resolve_user_quotas}

-- `Role` of src/dubbing_pipeline/api/models.py
pub data Role : Type 0 where
  admin operator editor viewer : Role

abbrev pub is_admin : Role → Bool
is_admin admin = true
is_admin _ = false

-- The texts in `reasons`.
pub data Reason : Type 0 where
  high_mode_admin_only gpu_unavailable_device_downgrade gpu_unavailable_mode_downgrade : Reason
  daily_job_cap user_queued_cap user_running_cap global_high_running_cap : Reason

pub record JobCounts : Type 0 where
  pub running : ℕ
  pub queued : ℕ
  pub today : ℕ

-- `_count_user_jobs`
unfoldable pub count_user_jobs : (Text → Bool) → List Job → Text → JobCounts
count_user_jobs is_today jobs user_id = record {
  running = count_if (λ j. text_eq j.owner_id user_id && is_running j.state) jobs;
  queued = count_if (λ j. text_eq j.owner_id user_id && is_queued j.state) jobs;
  today = count_if (λ j. text_eq j.owner_id user_id && is_today j.created_at) jobs;
}

abbrev pub override_limits : Option UserQuota → ℕ × ℕ → ℕ × ℕ
override_limits none limits = limits
override_limits (some q) (max_active, max_queued) = (
  overridden q.max_running (overridden q.max_concurrent_jobs max_active),
  overridden q.max_queued max_queued,
)

-- `_resolve_limits_for_user`: how many jobs of a user may run, and wait. A quota without entries is
-- `none`, for admins as for others.
unfoldable pub resolve_limits_for_user : Settings → Option UserQuota → ℕ × ℕ
resolve_limits_for_user s user_quota = override_limits user_quota (
  or_legacy s.max_concurrent_jobs_per_user (pos_part s.max_active_jobs_per_user),
  pos_part s.max_queued_jobs_per_user,
)

-- `str(requested_mode or "medium").strip().lower()`
unfoldable pub requested : Text → Text → Text
requested default raw = lower (strip (or_else raw default))

abbrev pub is_high : Text → Bool
is_high mode = text_eq mode (codes "high")

pub record DispatchDecision : Type 0 where
  pub ok : Bool
  pub reasons : List Reason
  pub retry_after_s : Option ℕ

abbrev deny : Reason → ℕ → DispatchDecision
deny why retry = record { ok = false; reasons = why ∷ []; retry_after_s = some retry }

abbrev pub counted : Option ℕ → ℕ
counted none = 0
counted (some n) = n

-- `evaluate_dispatch`; a counter that the backend does not give counts as 0
unfoldable pub evaluate_dispatch :
    Settings → Role → Text → ℕ → Option ℕ → Option UserQuota → DispatchDecision
evaluate_dispatch s role requested_mode running global_high_running user_quota =
    let mode = requested (codes "medium") requested_mode in
    let max_active = (resolve_limits_for_user s user_quota).0 in
    let max_high = pos_part s.max_high_running_global in
    let high_running = counted global_high_running in
    if is_high mode && (s.high_mode_admin_only && not (is_admin role))
    then deny high_mode_admin_only 60
    else if not (is_admin role) && (ltb 0 max_active && leb max_active running)
    then deny user_running_cap 5
    else if is_high mode && (ltb 0 max_high && leb max_high high_running)
    then deny global_high_running_cap 10
    else record { ok = true; reasons = []; retry_after_s = none }

pub record PolicyResult : Type 0 where
  pub ok : Bool
  pub status_code : ℕ
  pub detail : Text
  pub effective_mode : Text
  pub effective_device : Text
  pub reasons : List Reason
  pub running : ℕ
  pub queued : ℕ
  pub inflight : ℕ

-- The device, the mode and the reasons after the fallback for a missing GPU.
unfoldable pub gpu_fallback : Bool → Text → Text → Text × Text × List Reason
gpu_fallback has_gpu mode device =
    if text_eq device (codes "cuda") && not has_gpu
    then if is_high mode
      then (
        codes "medium",
        codes "cpu",
        gpu_unavailable_device_downgrade ∷ gpu_unavailable_mode_downgrade ∷ [],
      )
      else (mode, codes "cpu", gpu_unavailable_device_downgrade ∷ [])
    else (mode, device, [])

abbrev pub the_counts : Option JobCounts → JobCounts → JobCounts
the_counts none c = c
the_counts (some o) c = o

-- The caps on a submission, once the mode is allowed.
unfoldable pub check_caps : Role → ℕ → ℕ → JobCounts → Text × Text × List Reason → PolicyResult
check_caps role daily_cap max_queued c (mode, device, reasons) =
    let base : PolicyResult = record {
      ok = true;
      status_code = 200;
      detail = codes "ok";
      effective_mode = mode;
      effective_device = device;
      reasons = reasons;
      running = c.running;
      queued = c.queued;
      inflight = c.running + c.queued;
    } in
    if ltb 0 daily_cap && (leb daily_cap c.today && not (is_admin role))
    then record base {
      ok = false;
      status_code = 429;
      detail = codes "Daily job cap exceeded (limit=" ++ (show_ℕ daily_cap ++ codes ")");
      reasons = reasons ++ daily_job_cap ∷ [];
    }
    else if not (is_admin role) && (ltb 0 max_queued && leb max_queued c.queued)
    then record base {
      ok = false;
      status_code = 429;
      detail =
          codes "Too many queued jobs (queued="
          ++ (show_ℕ c.queued ++ (codes ", limit=" ++ (show_ℕ max_queued ++ codes ")")));
      reasons = reasons ++ user_queued_cap ∷ [];
    }
    else base

-- `evaluate_submission`
unfoldable pub evaluate_submission :
    Settings
    → Bool
    → (Text → Bool)
    → List Job
    → Text
    → Role
    → Text
    → Text
    → Option JobCounts
    → Option UserQuota
    → PolicyResult
evaluate_submission s has_gpu is_today jobs user_id role raw_mode raw_device override user_quota =
    let mode = requested (codes "medium") raw_mode in
    let device = requested (codes "auto") raw_device in
    let c = the_counts override (count_user_jobs is_today jobs user_id) in
    let max_queued = (resolve_limits_for_user s user_quota).1 in
    let daily_cap = (resolve_user_quotas s user_quota).jobs_per_day_per_user in
    if is_high mode && (s.high_mode_admin_only && not (is_admin role))
    then record {
      ok = false;
      status_code = 403;
      detail = codes "high mode is restricted to admin";
      effective_mode = mode;
      effective_device = device;
      reasons = high_mode_admin_only ∷ [];
      running = c.running;
      queued = c.queued;
      inflight = c.running + c.queued;
    }
    else check_caps role daily_cap max_queued c (gpu_fallback has_gpu mode device)
