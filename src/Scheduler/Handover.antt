-- ===== src/Scheduler/Handover.antt =====
-- What `_enqueue_one` of src/dubbing_pipeline/runtime/scheduler.py hands to the job queue.
use mathlib.Core.Bool.{true≢false}
use mathlib.Core.Option.{none-ne-some, some-injective}
use dubbing_pipeline.Base.{
  ◌∷◌, [], ◌≡◌, refl, sym, ap, ◌≢◌, ◌∙◌, arith, Bool, true, false, not, ◌&&◌, Option, none, some,
  Text, is_empty, or_else, text_eq, text_eq_sound, get-put_self, Bool-cases, inl, inr,
  if◌then◌else◌,
}
use dubbing_pipeline.Jobs.Models.{Job, JobState, queued, is_queued}
use dubbing_pipeline.Jobs.Store.{JobStore, find_job, update_job}
use dubbing_pipeline.Scheduler.Heap.{JobRecord}
use dubbing_pipeline.Scheduler.State.{Scheduler}
use dubbing_pipeline.Scheduler.Ops.{on_job_done}
use dubbing_pipeline.Scheduler.Dispatch.{
  align, updated_or, align_job, hand_over, fail_fields, enqueue_found, enqueue_one,
}

abbrev Holds : JobStore → Text → Job → Type 0
Holds store id job = find_job store id ≡ some job

update_held :
    (store : JobStore) (id : Text) (job : Job) (fields : Job → Job)
    → Holds store id job
    → (update_job store id fields).0 ≡ some (fields job)
      × Holds (update_job store id fields).1 id (fields job)
unfolding update_job
update_held store id job fields h = rw h (refl, get-put_self store id (fields job))

differs : Text → Text → Bool
differs want have = not (is_empty want) && not (text_eq want have)

align_held :
    (want have : Text) (fields : Job → Job) (id : Text) (job : Job) (store : JobStore)
    → Holds store id job
    → let r = align want have fields id (job, store) in
      (r.0 ≡ (if differs want have then fields job else job)) × Holds r.1 id r.0
unfolding align differs
align_held want have fields id job store h = elim (Bool-cases (differs want have)) [
  | inl b ↦ rw b (picked (update_job store id fields) (update_held store id job fields h))
  | inr b ↦ rw b (refl, h)
]
  where
    picked :
        (u : Option Job × JobStore)
        → (u.0 ≡ some (fields job)) × Holds u.1 id (fields job)
        → ((updated_or job u).0 ≡ fields job) × Holds (updated_or job u).1 id (updated_or job u).0
    picked (some j, st) (e, k) =
        let same : j ≡ fields job = some-injective _ _ e in (same, rw same k)
    picked (none, st) (e, k) = absurd (none-ne-some _ e)

or_else_same : (want have : Text) → differs want have ≡ false → or_else want have ≡ have
unfolding differs
or_else_same [] have e = refl
or_else_same (c ∷ want) have e = text_eq_sound (c ∷ want) have (ground arith)

or_else_new : (want have : Text) → differs want have ≡ true → or_else want have ≡ want
unfolding differs
or_else_new [] have e = ground arith
or_else_new (c ∷ want) have e = refl

-- The job as the record wants it run.
abbrev pub aligned : JobRecord → Job → Job
aligned rec job = record job {
  mode = or_else rec.mode job.mode;
  device = or_else rec.device_pref job.device;
}

set_mode :
    (want : Text) (job : Job)
    → (if differs want job.mode then record job { mode = want } else job)
      ≡ record job { mode = or_else want job.mode }
set_mode want job = elim (Bool-cases (differs want job.mode)) [
  | inl b ↦ rw (b, or_else_new want job.mode b)
  | inr b ↦ rw b (ap (λ m. record job { mode = m }) (sym (or_else_same want job.mode b)))
]

set_device :
    (want : Text) (job : Job)
    → (if differs want job.device then record job { device = want } else job)
      ≡ record job { device = or_else want job.device }
set_device want job = elim (Bool-cases (differs want job.device)) [
  | inl b ↦ rw (b, or_else_new want job.device b)
  | inr b ↦ rw b (ap (λ m. record job { device = m }) (sym (or_else_same want job.device b)))
]

align_job_lem :
    (rec : JobRecord) (job : Job) (store : JobStore)
    → Holds store rec.job_id job
    → let r = align_job rec job store in (r.0 ≡ aligned rec job) × Holds r.1 rec.job_id r.0
unfolding align_job
align_job_lem rec job store h =
    let (em, hm) =
      align_held rec.mode job.mode (λ j. record j { mode = rec.mode }) rec.job_id job store h in
    let r = align rec.mode job.mode (λ j. record j { mode = rec.mode }) rec.job_id (job, store) in
    let (ed, hd) =
      align_held rec.device_pref r.0.device (λ j. record j { device = rec.device_pref }) rec.job_id
        r.0 r.1 hm in
    (
      ed
          ∙ set_device rec.device_pref r.0
          ∙ ap {A = Job} {B = Job} (λ j. record j { device = or_else rec.device_pref j.device })
              (em ∙ set_mode rec.mode job),
      hd,
    )

queued_when : (st : JobState) → is_queued st ≡ true → st ≡ queued
queued_when st h = ground arith

-- What becomes of a record that left the queue.
pub data Fate (cb : Job → Option Text) (rec : JobRecord) (s : Scheduler) (store : JobStore)
    : Scheduler × JobStore × Option Job → Type 0 where
  missing :
      {r : Scheduler × JobStore × Option Job}
      → find_job store rec.job_id ≡ none
      → r ≡ (on_job_done s rec.job_id, store, none)
      → Fate cb rec s store r
  not_queued :
      {r : Scheduler × JobStore × Option Job} (job : Job)
      → find_job store rec.job_id ≡ some job
      → job.state ≢ queued
      → r ≡ (on_job_done s rec.job_id, store, none)
      → Fate cb rec s store r
  taken_on :
      {r : Scheduler × JobStore × Option Job} (job : Job)
      → find_job store rec.job_id ≡ some job
      → job.state ≡ queued
      → cb (aligned rec job) ≡ none
      → r.0 ≡ s
      → r.2 ≡ some (aligned rec job)
      → find_job r.1 rec.job_id ≡ some (aligned rec job)
      → Fate cb rec s store r
  refused :
      {r : Scheduler × JobStore × Option Job} (job : Job) (why : Text)
      → find_job store rec.job_id ≡ some job
      → job.state ≡ queued
      → cb (aligned rec job) ≡ some why
      → r.0 ≡ on_job_done s rec.job_id
      → r.2 ≡ some (aligned rec job)
      → find_job r.1 rec.job_id ≡ some (fail_fields why (aligned rec job))
      → Fate cb rec s store r

handed_Fate :
    (cb : Job → Option Text) (rec : JobRecord) (s : Scheduler) (store : JobStore) (job : Job)
    → (o : Option Text) (job' : Job) (store' : JobStore) → find_job store rec.job_id ≡ some job
    → job.state ≡ queued
    → cb (aligned rec job) ≡ o
    → job' ≡ aligned rec job
    → Holds store' rec.job_id job'
    → Fate cb rec s store (hand_over o job' rec.job_id s store')
handed_Fate cb rec s store job none job' store' f q e same h =
    taken_on job f q e refl (ap some same) (h ∙ ap some same)
handed_Fate cb rec s store job (some why) job' store' f q e same h =
    refused job why f q e refl (ap some same) (
      (update_held store' rec.job_id job' (fail_fields why) h).1
      ∙ ap {A = Job} (λ j. some (fail_fields why j)) same)

-- A job that is gone or no longer queued gives its slot back and is not handed on. One that is queued
-- is handed to the job queue with the mode and the device of the record, where the record has them,
-- and is stored so. If the job queue refuses it, it is stored as failed, with the reason, and gives
-- its slot back.
pub enqueue_one-Fate :
    (cb : Job → Option Text) (rec : JobRecord) (s : Scheduler) (store : JobStore)
    → Fate cb rec s store (enqueue_one cb rec s store)
unfolding enqueue_one
enqueue_one-Fate cb rec s store = by_job (find_job store rec.job_id) refl
  where
    by_job :
        (o : Option Job)
        → find_job store rec.job_id ≡ o
        → Fate cb rec s store (enqueue_found cb rec s store o)
    by_job none e = missing e refl
    by_job (some job) e = elim (Bool-cases (is_queued job.state)) [
      | inl b ↦
          let (same, held) = align_job_lem rec job store e in
          rw b (
            handed_Fate cb rec s store job _ _ _ e (queued_when job.state b) (ap cb (sym same)) same
              held)
      | inr b ↦ rw b (not_queued job e (λ q. true≢false (ap is_queued (sym q) ∙ b)) refl)
    ]
