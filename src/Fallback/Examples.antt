-- ===== src/Fallback/Examples.antt =====
-- One queued and one running job in the store, and a scheduler that is idle.
use mathlib.Core.List.{Perm}
use dubbing_pipeline.Base.{
  ℕ, pos, ◌≡◌, ◌≢◌, ◌↔◌, ◌≤◌, refl, Bool, true, false, [], ◌∷◌, ◌++◌, map, keep, All, none, Text,
  codes, text_eq, text_ltb, is_empty, strip, get, if◌then◌else◌,
}
use dubbing_pipeline.Jobs.Models.{Job, JobState, queued, running, absent, private_, is_queued}
use dubbing_pipeline.Jobs.Store.{
  JobStore, find_job, changed, list_jobs, latest_first, insert_by_date,
}
use dubbing_pipeline.Jobs.Limits.{resolve_user_quotas}
use dubbing_pipeline.Jobs.Policy.Examples.{settings}
use dubbing_pipeline.Scheduler.State.{Scheduler}
use dubbing_pipeline.Fallback.{
  Moment, Fallback, mem, wanted, scan_jobs, before_job_run, get_user_quota, wait_fields,
}
use dubbing_pipeline.Fallback.Scan.{queue_ids, lists, Distinct, rescan_lem, scan_jobs_lem}
use dubbing_pipeline.Fallback.Admission.{cap, running_now, before_job_run_lem}

abbrev job_of : Text → JobState → Text → Job
job_of id st day = record {
  id = id;
  owner_id = codes "ann";
  duration_s = 0;
  mode = codes "low";
  device = codes "cpu";
  created_at = day;
  state = st;
  message = [];
  error = none;
  metadata = absent;
  visibility = private_;
}

abbrev one : Job
one = job_of (codes "j1") queued (codes "2026-01-30")

abbrev two : Job
two = job_of (codes "j2") running (codes "2026-01-31")

abbrev pub store : JobStore
store = (codes "j1", one) ∷ (codes "j2", two) ∷ []

latest : list_jobs store 250 ≡ two ∷ one ∷ []
unfolding list_jobs latest_first insert_by_date text_ltb
latest = refl

abbrev idle : Scheduler
idle = record {
  heap = [];
  seq = 0;
  stop = false;
  max_global = 1;
  max_transcribe = 1;
  max_tts = 1;
  max_by_mode = record { at_high = 1; at_medium = 1; at_low = 1 };
  bp_qmax = pos 6;
  active_global = 0;
  active_by_mode = record { at_high = 0; at_medium = 0; at_low = 0 };
  active_job_mode = [];
  active_phase = record { at_audio = 0; at_transcribe = 0; at_tts = 0; at_mux = 0 };
  phase_sem = record { at_audio = 1; at_transcribe = 1; at_tts = 1; at_mux = 1 };
  entering = record { at_audio = 0; at_transcribe = 0; at_tts = 0; at_mux = 0 };
  leaving = record { at_audio = 0; at_transcribe = 0; at_tts = 0; at_mux = 0 };
}

abbrev pub fresh : Fallback
fresh = record { scheduler = idle; seen = [] }

abbrev pub at_noon : Text → Moment
at_noon id = record { draining = false; monotonic = 1000; time = 5000; jitter = 0 }

abbrev later : Text → Moment
later id = record { draining = false; monotonic = 3000; time = 7000; jitter = 0 }

abbrev pub no_text : ℕ → Text
no_text ms = []

both_Distinct : Distinct (two ∷ one ∷ [])
unfolding text_eq
both_Distinct = ((refl, tt), (tt, tt))

scan_jobs_example :
    Perm
      (queue_ids (scan_jobs no_text at_noon (two ∷ one ∷ []) (fresh, store)).0)
      (map (λ j. j.id) (keep (wanted []) (two ∷ one ∷ [])) ++ queue_ids fresh)
scan_jobs_example =
    scan_jobs_lem no_text at_noon (two ∷ one ∷ []) (fresh, store) (λ id. refl) both_Distinct

only_j1 : map (λ (j : Job). j.id) (keep (wanted []) (two ∷ one ∷ [])) ≡ codes "j1" ∷ []
unfolding mem
only_j1 = refl

one_listed : All (λ j. is_queued j.state ≡ true → lists (two ∷ one ∷ []) j.id ≡ true) (one ∷ [])
unfolding text_eq
one_listed = ((λ h. refl), tt)

rescan_example :
    let w = scan_jobs no_text at_noon (two ∷ one ∷ []) (fresh, store) in
    scan_jobs no_text later (one ∷ []) w ≡ w
rescan_example =
    rescan_lem no_text at_noon later (two ∷ one ∷ []) (one ∷ []) (fresh, store)
      (scan_jobs no_text at_noon (two ∷ one ∷ []) (fresh, store)) (λ id kept. kept) one_listed

abbrev every_day : Text → Bool
every_day day = true

-- Ann may run one job, and one is running.
before_job_run_example :
    let r = before_job_run settings [] (codes "j1") (codes "ann") fresh store in
    let most = cap settings [] (codes "j1") (codes "ann") fresh store in
    let now = running_now settings [] (codes "j1") (codes "ann") fresh store in
    ((r.0 ≡ false) ↔ ((is_empty (strip (codes "ann")) ≡ false) × (most ≢ 0) × (most ≤ now)))
    × (r.0 ≡ true → (r.1 ≡ fresh) × (r.2 ≡ store))
    × (r.0 ≡ false
        → (mem (codes "j1") r.1.seen ≡ false)
          × ((k : Text)
              → find_job r.2 k ≡ (
                  if text_eq (codes "j1") k
                  then changed wait_fields (find_job store (codes "j1"))
                  else find_job store k)))
before_job_run_example = before_job_run_lem settings [] (codes "j1") (codes "ann") fresh store

held : (before_job_run settings [] (codes "j1") (codes "ann") fresh store).0 ≡ false
unfolding before_job_run resolve_user_quotas get_user_quota get strip list_jobs latest_first
    insert_by_date text_ltb text_eq
held = refl
