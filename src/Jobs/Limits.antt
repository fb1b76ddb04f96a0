-- ===== src/Jobs/Limits.antt =====
-- src/dubbing_pipeline/jobs/limits.py: limits and quotas from the settings, and the counts of a user's
-- jobs. The comparison of calendar days of two ISO times (`datetime.fromisoformat`) is a parameter,
-- which says of a job's creation time whether it lies on the present day; times are in milliseconds.
use dubbing_pipeline.Base.{
  ℕ, ℤ, pos_part, ◌+◌, ◌*◌, Bool, ◌&&◌, ◌||◌, List, [], ◌∷◌, Option, none, some, Text, text_eq,
  if◌then◌else◌, ◌==◌, count_if,
}
use dubbing_pipeline.Jobs.Models.{Job, JobState, is_queued, is_running}

-- The settings that limits and policy read. `max(0, int(x))` is `pos_part x`.
pub record Settings : Type 0 where
  pub max_upload_bytes : ℤ
  pub max_upload_mb : ℤ
  pub max_video_min : ℤ
  pub max_video_width : ℤ
  pub max_video_height : ℤ
  pub max_video_pixels : ℤ
  pub max_concurrent_per_user : ℤ
  pub daily_processing_minutes : ℤ
  pub watchdog_audio_s : ℤ
  pub watchdog_diarize_s : ℤ
  pub watchdog_whisper_s : ℤ
  pub watchdog_translate_s : ℤ
  pub watchdog_tts_s : ℤ
  pub watchdog_mix_s : ℤ
  pub watchdog_mux_s : ℤ
  pub watchdog_export_s : ℤ
  pub jobs_per_day_per_user : ℤ
  pub daily_job_cap : ℤ
  pub max_concurrent_jobs_per_user : ℤ
  pub max_active_jobs_per_user : ℤ
  pub max_storage_bytes_per_user : ℤ
  pub max_queued_jobs_per_user : ℤ
  pub max_high_running_global : ℤ
  pub high_mode_admin_only : Bool

pub record Limits : Type 0 where
  pub max_video_min : ℕ
  pub max_video_width : ℕ
  pub max_video_height : ℕ
  pub max_video_pixels : ℕ
  pub max_upload_bytes : ℕ
  pub max_upload_mb : ℕ
  pub max_concurrent_per_user : ℕ
  pub daily_processing_minutes : ℕ
  pub timeout_audio_s : ℕ
  pub timeout_diarize_s : ℕ
  pub timeout_whisper_s : ℕ
  pub timeout_translate_s : ℕ
  pub timeout_tts_s : ℕ
  pub timeout_mix_s : ℕ
  pub timeout_mux_s : ℕ
  pub timeout_export_s : ℕ

-- A setting, and the older setting that stands in where it is 0 or less.
abbrev pub or_legacy : ℤ → ℕ → ℕ
or_legacy n legacy = if pos_part n == 0 then legacy else pos_part n

unfoldable pub get_limits : Settings → Limits
get_limits s = record {
  max_video_min = pos_part s.max_video_min;
  max_video_width = pos_part s.max_video_width;
  max_video_height = pos_part s.max_video_height;
  max_video_pixels = pos_part s.max_video_pixels;
  max_upload_bytes = or_legacy s.max_upload_bytes (pos_part s.max_upload_mb * 1024 * 1024);
  max_upload_mb = pos_part s.max_upload_mb;
  max_concurrent_per_user = pos_part s.max_concurrent_per_user;
  daily_processing_minutes = pos_part s.daily_processing_minutes;
  timeout_audio_s = pos_part s.watchdog_audio_s;
  timeout_diarize_s = pos_part s.watchdog_diarize_s;
  timeout_whisper_s = pos_part s.watchdog_whisper_s;
  timeout_translate_s = pos_part s.watchdog_translate_s;
  timeout_tts_s = pos_part s.watchdog_tts_s;
  timeout_mix_s = pos_part s.watchdog_mix_s;
  timeout_mux_s = pos_part s.watchdog_mux_s;
  timeout_export_s = pos_part s.watchdog_export_s;
}

-- The overrides that an admin stored for a user. A key that is missing, is `None` or is no number
-- leaves the default, here `none`.
pub record UserQuota : Type 0 where
  pub max_upload_bytes : Option ℤ
  pub jobs_per_day : Option ℤ
  pub max_concurrent_jobs : Option ℤ
  pub max_storage_bytes : Option ℤ
  pub max_running : Option ℤ
  pub max_queued : Option ℤ

abbrev pub overridden : Option ℤ → ℕ → ℕ
overridden none n = n
overridden (some k) n = pos_part k

pub record Quotas : Type 0 where
  pub max_upload_bytes : ℕ
  pub jobs_per_day_per_user : ℕ
  pub max_concurrent_jobs_per_user : ℕ
  pub max_storage_bytes_per_user : ℕ

default_quotas : Settings → Quotas
default_quotas s = record {
  max_upload_bytes = or_legacy s.max_upload_bytes (pos_part s.max_upload_mb * 1024 * 1024);
  jobs_per_day_per_user = or_legacy s.jobs_per_day_per_user (pos_part s.daily_job_cap);
  max_concurrent_jobs_per_user =
      or_legacy s.max_concurrent_jobs_per_user (pos_part s.max_active_jobs_per_user);
  max_storage_bytes_per_user = pos_part s.max_storage_bytes_per_user;
}

override_quotas : Option UserQuota → Quotas → Quotas
override_quotas none q = q
override_quotas (some o) q = record {
  max_upload_bytes = overridden o.max_upload_bytes q.max_upload_bytes;
  jobs_per_day_per_user = overridden o.jobs_per_day q.jobs_per_day_per_user;
  max_concurrent_jobs_per_user = overridden o.max_concurrent_jobs q.max_concurrent_jobs_per_user;
  max_storage_bytes_per_user = overridden o.max_storage_bytes q.max_storage_bytes_per_user;
}

unfoldable pub resolve_user_quotas : Settings → Option UserQuota → Quotas
unfolding default_quotas override_quotas
resolve_user_quotas s overrides = override_quotas overrides (default_quotas s)

abbrev pub is_inflight : JobState → Bool
is_inflight st = is_queued st || is_running st

unfoldable pub concurrent_jobs_for_user : List Job → Text → ℕ
concurrent_jobs_for_user jobs user_id =
    count_if (λ j. text_eq j.owner_id user_id && is_inflight j.state) jobs

-- The loop of `used_minutes_today`, before the division by 60; an exact sum of milliseconds.
unfoldable pub used_ms_today : (Text → Bool) → List Job → Text → ℕ
used_ms_today is_today [] user_id = 0
used_ms_today is_today (j ∷ jobs) user_id =
    let rest = used_ms_today is_today jobs user_id in
    if text_eq j.owner_id user_id && is_today j.created_at then j.duration_s + rest else rest
