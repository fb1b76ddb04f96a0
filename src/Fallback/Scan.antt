-- ===== src/Fallback/Scan.antt =====
-- What a pass of `_scan_loop` of src/dubbing_pipeline/queue/fallback_local_queue.py puts into the
-- scheduler.
use mathlib.Core.List.{Perm, perm_middle}
use mathlib.Core.List.Perm
use mathlib.Core.Path.{subst}
use mathlib.Core.Option.{none-ne-some}
use dubbing_pipeline.Base.{
  strip, ℤ, ℕ, ◌≡◌, ◌≢◌, refl, sym, arith, Bool, true, false, ◌&&◌, ◌||◌, List, [], ◌∷◌, ◌++◌, map,
  Option, none, some, Text, text_eq, text_eq_refl, text_eq_sound, is_empty, All, keep, Bool-cases,
  inl, inr, if◌then◌else◌,
}
use dubbing_pipeline.Jobs.Models.{Job, is_queued}
use dubbing_pipeline.Jobs.Store.{JobStore}
use dubbing_pipeline.Scheduler.Heap.{JobRecord}
use dubbing_pipeline.Scheduler.State.{Scheduler}
use dubbing_pipeline.Scheduler.Submit.{submit}
use dubbing_pipeline.Scheduler.Queue.{submit-Queued}
use dubbing_pipeline.Fallback.{
  submit_job, discard, Moment, Fallback, mem, submit_record, after_submit, scan_record, wanted,
  without_answer, scan_job, scan_jobs,
}

-- The jobs of the queue of the scheduler, by name.
abbrev pub queue_ids : Fallback → List Text
queue_ids q = map (λ e. e.rec.job_id) q.scheduler.heap

-- A queued job of this name is among the jobs.
abbrev pub lists : List Job → Text → Bool
lists [] id = false
lists (j ∷ jobs) id = (text_eq j.id id && is_queued j.state) || lists jobs id

-- No two jobs have the same name.
abbrev pub Distinct : List Job → Type 0
Distinct [] = Unit
Distinct (j ∷ jobs) = All (λ k. text_eq k.id j.id ≡ false) jobs × Distinct jobs

accepted :
    (show : ℕ → Text) (m : Moment) (rec : JobRecord) (s : Scheduler) (store : JobStore)
    → submit show false m.monotonic m.jitter s store rec ≢ none
unfolding submit
accepted show m rec s store e = none-ne-some _ (sym e)

module _ (show : ℕ → Text) where
  seen-submit :
      (q : Fallback) (store : JobStore) (o : Option (Scheduler × JobStore))
      → (without_answer (after_submit q store o)).0.seen ≡ q.seen
  seen-submit q store none = refl
  seen-submit q store (some p) = refl

  seen-scan_job :
      (m : Moment) (j : Job) (w : Fallback × JobStore)
      → (scan_job show m j w).0.seen ≡ (if wanted w.0.seen j then j.id ∷ w.0.seen else w.0.seen)
  unfolding scan_job
  seen-scan_job m j (q, store) = elim (Bool-cases (wanted q.seen j)) [
    | inl b ↦ rw b (seen-submit _ store _)
    | inr b ↦ rw b refl
  ]

  scan_job_keeps :
      (m : Moment) (j : Job) (w : Fallback × JobStore) (id : Text)
      → mem id w.0.seen ≡ true
      → mem id (scan_job show m j w).0.seen ≡ true
  unfolding mem
  scan_job_keeps m j w id h = ground (arith, seen-scan_job m j w)

  scan_jobs_keeps :
      (moments : Text → Moment) (jobs : List Job) (w : Fallback × JobStore) (id : Text)
      → mem id w.0.seen ≡ true
      → mem id (scan_jobs show moments jobs w).0.seen ≡ true
  unfolding scan_jobs
  scan_jobs_keeps moments [] w id h = h
  scan_jobs_keeps moments (j ∷ jobs) w id h =
      scan_jobs_keeps moments jobs (scan_job show (moments j.id) j w) id
        (scan_job_keeps (moments j.id) j w id h)

  scan_job_marks :
      (m : Moment) (j : Job) (w : Fallback × JobStore)
      → is_queued j.state ≡ true
      → is_empty j.id ≡ false
      → mem j.id (scan_job show m j w).0.seen ≡ true
  unfolding mem
  scan_job_marks m j w h e = ground (arith, seen-scan_job m j w, text_eq_refl j.id)

  scan_job_marks_same :
      (m : Moment) (j : Job) (w : Fallback × JobStore) (id : Text)
      → (text_eq j.id id && is_queued j.state) ≡ true
      → is_empty id ≡ false
      → mem id (scan_job show m j w).0.seen ≡ true
  scan_job_marks_same m j w id b e =
      subst (λ x. is_empty x ≡ false → mem x (scan_job show m j w).0.seen ≡ true)
        (text_eq_sound j.id id (ground (arith, b))) (scan_job_marks m j w (ground (arith, b))) e

  scan_jobs_marks :
      (moments : Text → Moment) (jobs : List Job) (w : Fallback × JobStore) (id : Text)
      → lists jobs id ≡ true
      → is_empty id ≡ false
      → mem id (scan_jobs show moments jobs w).0.seen ≡ true
  unfolding scan_jobs
  scan_jobs_marks moments [] w id h e = ground arith
  scan_jobs_marks moments (j ∷ jobs) w id h e =
      elim (Bool-cases (text_eq j.id id && is_queued j.state)) [
        | inl b ↦
            scan_jobs_keeps moments jobs (scan_job show (moments j.id) j w) id
              (scan_job_marks_same (moments j.id) j w id b e)
        | inr b ↦ scan_jobs_marks moments jobs (scan_job show (moments j.id) j w) id (rw b at h) e
      ]

  unwanted :
      (moments : Text → Moment) (jobs : List Job) (q : Fallback) (store : JobStore)
      → All (λ j. wanted q.seen j ≡ false) jobs
      → scan_jobs show moments jobs (q, store) ≡ (q, store)
  unfolding scan_jobs scan_job
  unwanted moments [] q store a = refl
  unwanted moments (j ∷ jobs) q store a = rw a.0 (unwanted moments jobs q store a.1)

  unwanted_listed :
      (moments : Text → Moment) (jobs : List Job) (w : Fallback × JobStore) (seen : List Text)
      (j : Job)
      → ((id : Text) → mem id (scan_jobs show moments jobs w).0.seen ≡ true → mem id seen ≡ true)
      → (is_queued j.state ≡ true → lists jobs j.id ≡ true)
      → wanted seen j ≡ false
  unwanted_listed moments jobs w seen j kept l = elim (Bool-cases (is_queued j.state)) [
    | inl q ↦ elim (Bool-cases (is_empty j.id)) [
      | inl e ↦ ground arith
      | inr e ↦ ground (arith, kept j.id (scan_jobs_marks moments jobs w j.id (l q) e))
    ]
    | inr q ↦ ground arith
  ]

  -- A later pass submits nothing again: over jobs whose queued ones were among the queued jobs of an
  -- earlier pass, it leaves the scheduler, the set of jobs seen and the store as they are, whatever came
  -- between the passes, provided that no job which the earlier pass left in the set of jobs seen was taken
  -- out of it since (as a submission, the gate of a run and a stop do).
  pub rescan_lem :
      (moments later : Text → Moment) (jobs again : List Job) (w v : Fallback × JobStore)
      → ((id : Text)
          → mem id (scan_jobs show moments jobs w).0.seen ≡ true
          → mem id v.0.seen ≡ true)
      → All (λ j. is_queued j.state ≡ true → lists jobs j.id ≡ true) again
      → scan_jobs show later again v ≡ v
  rescan_lem moments later jobs again w v kept a =
      unwanted later again v.0 v.1 (none_wanted again a)
    where
      none_wanted :
          (again : List Job)
          → All (λ j. is_queued j.state ≡ true → lists jobs j.id ≡ true) again
          → All (λ j. wanted v.0.seen j ≡ false) again
      none_wanted [] a = tt
      none_wanted (j ∷ again) a =
          (unwanted_listed moments jobs w v.0.seen j kept a.0, none_wanted again a.1)

  submitted :
      (m : Moment) (rec : JobRecord) (q : Fallback) (store : JobStore)
      → m.draining ≡ false
      → Perm
          (queue_ids (after_submit q store (submit_record show m rec q.scheduler store)).0)
          (rec.job_id ∷ queue_ids q)
  submitted m rec q store live =
      by_answer (submit show false m.monotonic m.jitter q.scheduler store rec) refl
    where
      by_answer :
          (o : Option (Scheduler × JobStore))
          → submit show false m.monotonic m.jitter q.scheduler store rec ≡ o
          → Perm
              (queue_ids (after_submit q store (submit_record show m rec q.scheduler store)).0)
              (rec.job_id ∷ queue_ids q)
      by_answer none e = absurd (accepted show m rec q.scheduler store e)
      by_answer (some (t, store')) e =
          let r = (submit-Queued show q.scheduler store rec m.monotonic m.jitter false e).1 in
          rw (live, e) (Perm.trans (Perm.map _ r.added) (Perm.cons' r.same_job Perm.rfl))

  scanned_job :
      (m : Moment) (j : Job) (w : Fallback × JobStore)
      → m.draining ≡ false
      → Perm
          (queue_ids (scan_job show m j w).0)
          (if wanted w.0.seen j then j.id ∷ queue_ids w.0 else queue_ids w.0)
  unfolding scan_job
  scanned_job m j (q, store) live = elim (Bool-cases (wanted q.seen j)) [
    | inl b ↦ rw b (submitted m (scan_record m j) (record q { seen = j.id ∷ q.seen }) store live)
    | inr b ↦ rw b Perm.rfl
  ]

  wanted_later :
      (m : Moment) (j : Job) (w : Fallback × JobStore) (jobs : List Job)
      → All (λ k. text_eq k.id j.id ≡ false) jobs
      → keep (wanted (scan_job show m j w).0.seen) jobs ≡ keep (wanted w.0.seen) jobs
  unfolding mem
  wanted_later m j w [] d = refl
  wanted_later m j w (k ∷ jobs) d =
      ground (arith, wanted_later m j w jobs d.1, seen-scan_job m j w, d.0)

  -- A pass while the service takes jobs, over jobs of different names, puts into the queue of the
  -- scheduler exactly the queued jobs that were not yet seen, each once, beside those that are there.
  pub scan_jobs_lem :
      (moments : Text → Moment) (jobs : List Job) (w : Fallback × JobStore)
      → ((id : Text) → (moments id).draining ≡ false)
      → Distinct jobs
      → Perm
          (queue_ids (scan_jobs show moments jobs w).0)
          (map (λ j. j.id) (keep (wanted w.0.seen) jobs) ++ queue_ids w.0)
  unfolding scan_jobs
  scan_jobs_lem moments [] w live d = Perm.rfl
  scan_jobs_lem moments (j ∷ jobs) w live d =
      let w' = scan_job show (moments j.id) j w in
      let ids = map (λ (k : Job). k.id) (keep (wanted w.0.seen) jobs) in
      Perm.trans (scan_jobs_lem moments jobs w' live d.1) (
        rw (wanted_later (moments j.id) j w jobs d.0) (
          Perm.trans (Perm.append_left ids (scanned_job (moments j.id) j w (live j.id)))
            (rw named (moved ids))))
    where
      moved :
          (ids : List Text)
          → Perm
              (ids ++ (if wanted w.0.seen j then j.id ∷ queue_ids w.0 else queue_ids w.0))
              ((if wanted w.0.seen j then j.id ∷ ids else ids) ++ queue_ids w.0)
      moved ids = elim (Bool-cases (wanted w.0.seen j)) [
        | inl b ↦ rw b (perm_middle ids (queue_ids w.0))
        | inr b ↦ rw b Perm.rfl
      ]

      named : map (λ (k : Job). k.id) (keep (wanted w.0.seen) (j ∷ jobs)) ≡ (
          if wanted w.0.seen j
          then j.id ∷ map (λ k. k.id) (keep (wanted w.0.seen) jobs)
          else map (λ k. k.id) (keep (wanted w.0.seen) jobs))
      named = elim (Bool-cases (wanted w.0.seen j)) [ inl b ↦ rw b refl | inr b ↦ rw b refl ]

  answered :
      (m : Moment) (rec : JobRecord) (q : Fallback) (store : JobStore) (s : Scheduler)
      → m.draining ≡ false
      → (after_submit q store (submit_record show m rec s store)).2 ≡ true
  unfolding submit
  answered m rec q store s live = rw live refl

  -- A job that is submitted while the service takes jobs is in the queue of the scheduler.
  pub submitted_job :
      (m : Moment) (q : Fallback) (store : JobStore) (job_id mode device : Text) (priority : ℤ)
      → is_empty (strip job_id) ≡ false
      → m.draining ≡ false
      → let r = submit_job show m q store job_id mode device priority in
        (r.2 ≡ true) × Perm (queue_ids r.0) (strip job_id ∷ queue_ids q)
  unfolding submit_job
  submitted_job m q store job_id mode device priority e live =
      let known = record q { seen = discard (strip job_id) q.seen } in
      rw e (answered m _ known store q.scheduler live, submitted m _ known store live)
