-- ===== src/Jobs/Policy/Submission.antt =====
-- Which submissions `evaluate_submission` of src/dubbing_pipeline/jobs/policy.py accepts, and as what.
use mathlib.Core.Bool.{true≢false}
use dubbing_pipeline.Base.{
  text_eq_complete, ℕ, ◌<◌, ◌≡◌, ◌≢◌, ◌⊎◌, inl, inr, ◌↔◌, refl, sym, ap, ◌∙◌, arith, Bool, true,
  false, List, [], Option, Text, codes, text_eq, text_eq_sound, Bool-cases,
}
use dubbing_pipeline.Jobs.Models.{Job}
use dubbing_pipeline.Jobs.Limits.{Settings, UserQuota, resolve_user_quotas}
use dubbing_pipeline.Jobs.Policy.{
  Role, admin, JobCounts, the_counts, count_user_jobs, resolve_limits_for_user, requested, is_high,
  PolicyResult, gpu_fallback, check_caps, evaluate_submission, Reason,
}

-- What the policy asks of a submission by a user who is no admin.
abbrev pub MayQueue : Settings → Option UserQuota → JobCounts → Text → Type 0
MayQueue s quota c mode =
    let daily_cap = (resolve_user_quotas s quota).jobs_per_day_per_user in
    let max_queued = (resolve_limits_for_user s quota).1 in
    ((is_high mode ≡ false) ⊎ (s.high_mode_admin_only ≡ false))
    × ((daily_cap ≡ 0) ⊎ (c.today < daily_cap))
    × ((max_queued ≡ 0) ⊎ (c.queued < max_queued))

check_caps_ok :
    (role : Role) (daily_cap max_queued : ℕ) (c : JobCounts) (p : Text × Text × List Reason)
    → ((check_caps role daily_cap max_queued c p).ok ≡ true) ↔ (
        (role ≡ admin)
        ⊎ ((daily_cap ≡ 0) ⊎ (c.today < daily_cap)) × ((max_queued ≡ 0) ⊎ (c.queued < max_queued)))
unfolding check_caps
check_caps_ok role daily_cap max_queued c p = ground arith

-- What the fallback makes of a mode and a device.
abbrev Fallen : Bool → Text → Text → Text × Text × List Reason → Type 0
Fallen has_gpu mode device (m, d, reasons) =
    (has_gpu ≡ false → d ≢ codes "cuda")
    × (is_high m ≡ true → is_high mode ≡ true)
    × (device ≢ codes "cuda" ⊎ (has_gpu ≡ true) → (m ≡ mode) × (d ≡ device) × (reasons ≡ []))

cpu-ne-cuda : codes "cpu" ≢ codes "cuda"
cpu-ne-cuda = ground arith

medium_not_high : is_high (codes "medium") ≡ false
unfolding text_eq
medium_not_high = refl

gpu_fallback-Fallen :
    (has_gpu : Bool) (mode device : Text)
    → Fallen has_gpu mode device (gpu_fallback has_gpu mode device)
unfolding gpu_fallback
gpu_fallback-Fallen true mode device = elim (Bool-cases (text_eq device (codes "cuda"))) [
  | inl c ↦ rw c ((λ e. absurd (true≢false e)), (λ h. h), (λ o. (refl, refl, refl)))
  | inr c ↦ rw c ((λ e. absurd (true≢false e)), (λ h. h), (λ o. (refl, refl, refl)))
]
gpu_fallback-Fallen false mode device = elim (Bool-cases (text_eq device (codes "cuda"))) [
  | inl c ↦ elim (Bool-cases (is_high mode)) [
    | inl h ↦
        rw (c, h)
          (
            (λ _. cpu-ne-cuda),
            (λ e. absurd (true≢false (sym e ∙ medium_not_high))),
            λ o. absurd (no_gpu_cuda c o),
          )
    | inr h ↦ rw (c, h) ((λ _. cpu-ne-cuda), (λ e. sym h ∙ e), λ o. absurd (no_gpu_cuda c o))
  ]
  | inr c ↦ rw c (
    (λ _ e. true≢false (sym (text_eq_complete device (codes "cuda") e) ∙ c)),
    (λ h. h),
    (λ o. (refl, refl, refl)),
  )
]
  where
    no_gpu_cuda :
        text_eq device (codes "cuda") ≡ true
        → (device ≢ codes "cuda") ⊎ (◌≡◌ {A = Bool} false true)
        → ⊥
    no_gpu_cuda c (inl d) = d (text_eq_sound device (codes "cuda") c)
    no_gpu_cuda c (inr e) = true≢false (sym e)

check_caps_keeps :
    (role : Role) (daily_cap max_queued : ℕ) (c : JobCounts) (p : Text × Text × List Reason)
    → let r = check_caps role daily_cap max_queued c p in
      (r.effective_mode ≡ p.0) × (r.effective_device ≡ p.1)
unfolding check_caps
check_caps_keeps role daily_cap max_queued c p = ground arith

module _ (s : Settings) (has_gpu : Bool) (is_today : Text → Bool) (jobs : List Job) (user_id : Text)
    (role : Role) (raw_mode raw_device : Text) (override : Option JobCounts)
    (quota : Option UserQuota) where
  abbrev result : PolicyResult
  result =
      evaluate_submission s has_gpu is_today jobs user_id role raw_mode raw_device override quota

  -- A submission is accepted exactly if an admin makes it, also one for whom quotas are set, which the
  -- comment of the limits says still bind; or if it does not ask for a high mode that is kept for admins,
  -- the user has jobs left for the day, and has not too many waiting. A cap of 0 is no cap.
  pub submission_ok_iff : (result.ok ≡ true) ↔ (
      (role ≡ admin)
      ⊎ MayQueue s quota
          (the_counts override (count_user_jobs is_today jobs user_id))
          (requested (codes "medium") raw_mode))
  unfolding evaluate_submission
  submission_ok_iff =
      let mode = requested (codes "medium") raw_mode in
      let device = requested (codes "auto") raw_device in
      ground (
        arith,
        check_caps_ok role (resolve_user_quotas s quota).jobs_per_day_per_user
            (resolve_limits_for_user s quota).1
            (the_counts override (count_user_jobs is_today jobs user_id))
            (gpu_fallback has_gpu mode device),
      )

  -- The status is 403 exactly if a user who is no admin asks for a high mode that is kept for admins,
  -- 200 exactly if the submission is accepted, and 429 in all other cases.
  pub submission_status :
      ((result.status_code ≡ 403) ↔ (
        (is_high (requested (codes "medium") raw_mode) ≡ true)
        × (s.high_mode_admin_only ≡ true)
        × (role ≢ admin)))
      × ((result.status_code ≡ 200) ↔ (result.ok ≡ true))
      × (result.ok ≡ false → result.status_code ≢ 403 → result.status_code ≡ 429)
  unfolding evaluate_submission check_caps
  submission_status = ground arith

  accepted_as :
      result.ok ≡ true
      → let fallen =
          gpu_fallback has_gpu
            (requested (codes "medium") raw_mode)
            (requested (codes "auto") raw_device) in
        ((is_high (requested (codes "medium") raw_mode) ≡ true)
          → (role ≡ admin) ⊎ (s.high_mode_admin_only ≡ false))
        × (result.effective_mode ≡ fallen.0)
        × (result.effective_device ≡ fallen.1)
  unfolding evaluate_submission
  accepted_as h =
      let mode = requested (codes "medium") raw_mode in
      let device = requested (codes "auto") raw_device in
      ground (
        arith,
        check_caps_keeps role (resolve_user_quotas s quota).jobs_per_day_per_user
            (resolve_limits_for_user s quota).1
            (the_counts override (count_user_jobs is_today jobs user_id))
            (gpu_fallback has_gpu mode device),
      )

  -- An accepted submission runs in high mode only for an admin, or where the settings open high mode
  -- to all, and only if high mode was asked for; it runs on CUDA only if a GPU is there; and unless
  -- CUDA was asked for without a GPU, its mode and its device are those asked for.
  pub submission_effective :
      result.ok ≡ true
      → (is_high result.effective_mode ≡ true
          → ((role ≡ admin) ⊎ (s.high_mode_admin_only ≡ false))
            × (is_high (requested (codes "medium") raw_mode) ≡ true))
        × (has_gpu ≡ false → result.effective_device ≢ codes "cuda")
        × ((requested (codes "auto") raw_device ≢ codes "cuda") ⊎ (has_gpu ≡ true)
            → (result.effective_mode ≡ requested (codes "medium") raw_mode)
              × (result.effective_device ≡ requested (codes "auto") raw_device))
  submission_effective h =
      let mode = requested (codes "medium") raw_mode in
      let device = requested (codes "auto") raw_device in
      let (allowed, em, ed) = accepted_as h in
      let (no_cuda, no_high, kept) = gpu_fallback-Fallen has_gpu mode device in
      (
        (λ e. let asked = no_high (ap is_high (sym em) ∙ e) in (allowed asked, asked)),
        (λ g e. no_cuda g (sym ed ∙ e)),
        λ o. let k = kept o in (em ∙ k.0, ed ∙ k.1),
      )
