-- ===== src/Jobs/Policy/DispatchNet.antt =====
-- The safety net of `evaluate_dispatch` of src/dubbing_pipeline/jobs/policy.py.
use dubbing_pipeline.Base.{
  ℕ, pos_part, ◌<◌, ◌≡◌, ◌≢◌, ◌⊎◌, ◌↔◌, arith, Bool, true, false, List, Option, none, Text, codes,
}
use dubbing_pipeline.Jobs.Models.{Job}
use dubbing_pipeline.Jobs.Limits.{Settings, UserQuota}
use dubbing_pipeline.Jobs.Policy.{
  Role, admin, JobCounts, resolve_limits_for_user, requested, is_high, DispatchDecision, counted,
  evaluate_dispatch, evaluate_submission,
}
use dubbing_pipeline.Jobs.Policy.Submission.{submission_status}

-- The three grounds on which the net holds a job back.
abbrev pub KeptForAdmins : Settings → Role → Text → Type 0
KeptForAdmins s role mode = (is_high mode ≡ true) × (s.high_mode_admin_only ≡ true) × (role ≢ admin)

abbrev pub HasSlot : Settings → Role → Option UserQuota → ℕ → Type 0
HasSlot s role quota running =
    let max_active = (resolve_limits_for_user s quota).0 in
    (role ≡ admin) ⊎ (max_active ≡ 0) ⊎ (running < max_active)

abbrev pub HasHighSlot : Settings → Text → Option ℕ → Type 0
HasHighSlot s mode global =
    let max_high = pos_part s.max_high_running_global in
    (is_high mode ≡ false) ⊎ (max_high ≡ 0) ⊎ (counted global < max_high)

module _ (s : Settings) (role : Role) (raw_mode : Text) (running : ℕ) (global : Option ℕ)
    (quota : Option UserQuota) where
  abbrev decision : DispatchDecision
  decision = evaluate_dispatch s role raw_mode running global quota

  -- A job is dispatched exactly if its mode is not kept for admins, or an admin runs it; its user is an
  -- admin, has no cap or fewer running jobs than the cap; and it is not in high mode, there is no cap
  -- on the high mode or fewer jobs run in it than the cap. A retry time is given exactly if it is not.
  pub dispatch_ok_iff :
      ((decision.ok ≡ true) ↔ (
        (¬ KeptForAdmins s role (requested (codes "medium") raw_mode))
        × HasSlot s role quota running
        × HasHighSlot s (requested (codes "medium") raw_mode) global))
      × ((decision.ok ≡ true) ↔ (decision.retry_after_s ≡ none))
  unfolding evaluate_dispatch
  dispatch_ok_iff = ground arith

  -- What submission refuses with status 403 is not dispatched either, whatever the counts.
  pub refused_not_dispatched :
      (has_gpu : Bool) (is_today : Text → Bool) (jobs : List Job) (user_id raw_device : Text)
      → (override : Option JobCounts)
      → let r =
          evaluate_submission s has_gpu is_today jobs user_id role raw_mode raw_device override
            quota in
        r.status_code ≡ 403 → decision.ok ≡ false
  unfolding evaluate_dispatch
  refused_not_dispatched has_gpu is_today jobs user_id raw_device override h =
      let st =
        submission_status s has_gpu is_today jobs user_id role raw_mode raw_device override quota in
      ground (arith, st.0.0 h)
