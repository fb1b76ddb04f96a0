-- ===== src/Jobs/Policy/Examples.antt =====
-- A user with one running and one queued job, under caps of one running and two queued jobs.
use dubbing_pipeline.Base.{
  pos, ◌≡◌, ◌⊎◌, ◌↔◌, refl, Bool, true, false, List, [], ◌∷◌, none, some, Text, codes, text_eq,
  lower, strip,
}
use dubbing_pipeline.Jobs.Models.{Job, JobState, queued, running, absent, private_}
use dubbing_pipeline.Jobs.Limits.{
  Settings, UserQuota, resolve_user_quotas, concurrent_jobs_for_user, used_ms_today,
}
use dubbing_pipeline.Jobs.Policy.{
  admin, viewer, the_counts, count_user_jobs, requested, evaluate_submission,
  resolve_limits_for_user, gpu_fallback, check_caps,
}
use dubbing_pipeline.Jobs.Policy.Submission.{MayQueue, submission_ok_iff}

abbrev pub settings : Settings
settings = record {
  max_upload_bytes = pos 0;
  max_upload_mb = pos 2048;
  max_video_min = pos 180;
  max_video_width = pos 3840;
  max_video_height = pos 2160;
  max_video_pixels = pos 0;
  max_concurrent_per_user = pos 2;
  daily_processing_minutes = pos 240;
  watchdog_audio_s = pos 600;
  watchdog_diarize_s = pos 1200;
  watchdog_whisper_s = pos 2700;
  watchdog_translate_s = pos 600;
  watchdog_tts_s = pos 1200;
  watchdog_mix_s = pos 1200;
  watchdog_mux_s = pos 1200;
  watchdog_export_s = pos 1200;
  jobs_per_day_per_user = pos 0;
  daily_job_cap = pos 10;
  max_concurrent_jobs_per_user = pos 0;
  max_active_jobs_per_user = pos 1;
  max_storage_bytes_per_user = pos 0;
  max_queued_jobs_per_user = pos 2;
  max_high_running_global = pos 1;
  high_mode_admin_only = true;
}

abbrev job_of : Text → JobState → Job
job_of user st = record {
  id = codes "j";
  owner_id = user;
  duration_s = 90000;
  mode = codes "medium";
  device = codes "cpu";
  created_at = codes "2026-01-31T10:00:00+00:00";
  state = st;
  message = [];
  error = none;
  metadata = absent;
  visibility = private_;
}

abbrev jobs : List Job
jobs =
    job_of (codes "ann") running ∷ job_of (codes "ann") queued ∷ job_of (codes "bob") running ∷ []

abbrev every_day : Text → Bool
every_day t = true

legacy_quotas : resolve_limits_for_user settings none ≡ (1, 2)
unfolding resolve_limits_for_user
legacy_quotas = refl

in_flight : concurrent_jobs_for_user jobs (codes "ann") ≡ 2
unfolding concurrent_jobs_for_user text_eq
in_flight = refl

used : used_ms_today every_day jobs (codes "ann") ≡ 180000
unfolding used_ms_today text_eq
used = refl

-- " HIGH" on CUDA, by a viewer
abbrev asked_high : Text
asked_high = codes " HIGH"

submission_ok_iff_example :
    ((evaluate_submission settings false every_day jobs
        (codes "ann")
        viewer
        (codes "low")
        (codes "cpu")
        none
        none).ok
      ≡ true)
    ↔ ((viewer ≡ admin)
        ⊎ MayQueue settings none
            (the_counts none (count_user_jobs every_day jobs (codes "ann")))
            (requested (codes "medium") (codes "low")))
submission_ok_iff_example =
    submission_ok_iff settings false every_day jobs (codes "ann") viewer (codes "low") (codes "cpu")
      none none

ann_accepted :
    (evaluate_submission settings false every_day jobs
      (codes "ann")
      admin
      asked_high
      (codes "cuda")
      none
      none).ok
    ≡ true
unfolding evaluate_submission requested gpu_fallback check_caps resolve_limits_for_user
    resolve_user_quotas count_user_jobs text_eq lower strip
ann_accepted = refl

abbrev one_waiting : UserQuota
one_waiting = record {
  max_upload_bytes = none;
  jobs_per_day = some (pos 1);
  max_concurrent_jobs = none;
  max_storage_bytes = none;
  max_running = none;
  max_queued = some (pos 1);
}

-- A quota of one waiting job and one a day, which both are reached, does not stop an admin.
quota_ignored :
    (evaluate_submission settings false every_day jobs
      (codes "ann")
      admin
      (codes "low")
      (codes "cpu")
      none
      (some one_waiting)).ok
    ≡ true
unfolding evaluate_submission requested gpu_fallback check_caps resolve_limits_for_user
    resolve_user_quotas count_user_jobs text_eq lower strip
quota_ignored = refl

viewer_refused :
    (evaluate_submission settings true every_day jobs
      (codes "ann")
      viewer
      asked_high
      (codes "cuda")
      none
      none).status_code
    ≡ 403
unfolding evaluate_submission requested text_eq lower strip
viewer_refused = refl
