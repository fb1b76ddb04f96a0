-- ===== src/Quotas/Examples.antt =====
-- A day of two jobs at most, for one user, and a viewer who asks for high mode.
use dubbing_pipeline.Base.{
  Text, List, ◌≡◌, refl, true, false, [], ◌∷◌, none, codes, text_eq, lower, strip, get, put, pop,
  err,
}
use dubbing_pipeline.Jobs.Limits.{resolve_user_quotas}
use dubbing_pipeline.Jobs.Policy.{viewer, requested, evaluate_submission}
use dubbing_pipeline.Jobs.Policy.Examples.{settings}
use dubbing_pipeline.Jobs.Store.{list_jobs, latest_first}
use dubbing_pipeline.Quotas.Local.{Reserved, amount_at, reserve_daily, release_daily, jobs_of_day}
use dubbing_pipeline.Quotas.Day.{Event, enter, enter_all, reserve, make, lose, release, abandon}
use dubbing_pipeline.Quotas.Submission.{
  admin_bypass, Request, jobs_per_day_limit, name_error, reserve_daily_jobs, reserve_submit_jobs,
  policy_of,
}
use dubbing_pipeline.Quotas.Kept.{reserve_submit_jobs_lem, high_refused_fails}

abbrev none_reserved : Reserved
none_reserved = record { daily = []; pending = [] }

abbrev key : Text
key = codes "20260131ann"

-- Of four reservations of one job, the third is refused, until one is given up.
abbrev events : List Event
events =
    reserve 1
    ∷ make
    ∷ reserve 1
    ∷ reserve 1
    ∷ release 1
    ∷ abandon 1
    ∷ reserve 1
    ∷ make
    ∷ release 1
    ∷ []

made_two :
    let b =
      enter_all 2 key
        (record { reserved = none_reserved; made = 0; lost = 0; to_make = 0; to_release = 0 })
        events in
    (b.made ≡ 2) × (get b.reserved.daily key ≡ none)
unfolding enter_all enter reserve_daily get put text_eq release_daily pop
made_two = (refl, refl)

-- A job that is deleted makes room for a third one.
third_made :
    let b =
      enter_all 2 key
        (record { reserved = none_reserved; made = 0; lost = 0; to_make = 0; to_release = 0 })
        (reserve 2 ∷ make ∷ make ∷ release 2 ∷ lose ∷ reserve 1 ∷ make ∷ release 1 ∷ []) in
    (b.made ≡ 3) × (b.lost ≡ 1)
unfolding enter_all enter reserve_daily get put text_eq release_daily pop
third_made = (refl, refl)

-- A viewer asks for a job in high mode, with nine of ten jobs reserved.
abbrev high_request : Request
high_request = record {
  settings = settings;
  has_gpu = true;
  is_today = (λ t. true);
  day = codes "20260131";
  store = [];
  user_id = codes "ann";
  role = viewer;
  overrides = none;
  counts = none;
  count = 1;
  mode = codes "HIGH";
  device = codes "cuda";
}

abbrev nine_reserved : Reserved
nine_reserved = record { daily = (key, 9) ∷ []; pending = [] }

abbrev two_more : Request
two_more = record high_request { count = 2; mode = codes "low" }

capped : (reserve_submit_jobs two_more nine_reserved).1 ≡ err (jobs_per_day_limit 10 9)
unfolding reserve_submit_jobs admin_bypass resolve_user_quotas jobs_of_day list_jobs latest_first
    get text_eq
capped = refl

reserve_submit_jobs_example :
    amount_at (reserve_submit_jobs high_request nine_reserved).0.daily key ≡ 9
unfolding reserve_submit_jobs admin_bypass resolve_user_quotas jobs_of_day list_jobs latest_first
    get put pop text_eq evaluate_submission requested lower strip amount_at
reserve_submit_jobs_example =
    (reserve_submit_jobs_lem high_request nine_reserved).0 name_error key refl

high_refused_fails_example :
    ((policy_of high_request).status_code ≡ 403)
    × ((reserve_submit_jobs high_request nine_reserved).1 ≡ err name_error)
unfolding reserve_daily_jobs requested admin_bypass resolve_user_quotas jobs_of_day list_jobs
    latest_first get text_eq lower strip
high_refused_fails_example =
    high_refused_fails high_request nine_reserved
      (record {
        count = 1;
        has_release = true;
        released = false;
        effective_mode = [];
        effective_device = [];
      })
      refl refl refl refl
