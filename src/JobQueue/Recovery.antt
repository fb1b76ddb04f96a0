-- ===== src/JobQueue/Recovery.antt =====
-- What `start` of src/dubbing_pipeline/jobs/queue_impl.py makes of the jobs that a restart interrupted.
use mathlib.Core.Bool.{true≢false}
use mathlib.Core.List.{append-nil, append_assoc}
use dubbing_pipeline.Base.{
  List, [], ◌∷◌, ◌++◌, Option, none, some, Bool, true, false, not, ◌&&◌, ◌||◌, if◌then◌else◌, Text,
  codes, text_eq, text_eq_sound, ◌≡◌, refl, sym, ap, Bool-cases, inl, inr, map, keep,
}
use dubbing_pipeline.Jobs.Models.{Job, queued, is_queued, is_running}
use dubbing_pipeline.Jobs.Store.{
  JobStore, find_job, update_job, find_job-update_job, changed, list_jobs,
}
use dubbing_pipeline.JobQueue.State
use dubbing_pipeline.JobQueue.State.{
  Queue, Intake, takes, set_state, put_state, push, recover_one, recover,
}

abbrev pub is_unfinished : Job → Bool
is_unfinished j = is_queued j.state || is_running j.state

-- Whether the recovery meets an unfinished job with this id.
abbrev pub is_met : Text → List Job → Bool
is_met k [] = false
is_met k (j ∷ js) = is_unfinished j && text_eq j.id k || is_met k js

-- What the recovery makes of a job.
abbrev pub recovered : Job → Job
recovered j = record j { state = queued; message = codes "Recovered after restart" }

-- The ids that the backend does not take.
abbrev pub left_over : Intake → List Job → List Text
left_over intake js = map (λ j. j.id) (keep (λ j. not (takes intake j.id)) (keep is_unfinished js))

update_found :
    (store : JobStore) (a k : Text) (f : Job → Job)
    → find_job (update_job store a f).1 k
      ≡ (if text_eq a k then changed f (find_job store k) else find_job store k)
update_found store a k f = elim (Bool-cases (text_eq a k)) [
  | inl e ↦
      rw (find_job-update_job store a k f, e)
        (ap (λ (i : Text). changed f (find_job store i)) (text_eq_sound a k e))
  | inr e ↦ rw (find_job-update_job store a k f, e) refl
]

recovered_twice :
    (a m : Bool) (o : Option Job)
    → (if m
        then changed recovered (if a then changed recovered o else o)
        else if a
        then changed recovered o
        else o)
      ≡ (if a || m then changed recovered o else o)
recovered_twice true true none = refl
recovered_twice true true (some j) = refl
recovered_twice true false o = refl
recovered_twice false true o = refl
recovered_twice false false o = refl

recover_one-find :
    (intake : Intake) (q : Queue) (j : Job) (k : Text)
    → find_job (recover_one intake q j).store k ≡ (
        if is_unfinished j && text_eq j.id k
        then changed recovered (find_job q.store k)
        else find_job q.store k)
unfolding recover_one put_state push set_state
recover_one-find intake q j k = elim (Bool-cases (is_unfinished j)) [
  | inl e ↦ rw e (elim (Bool-cases (takes intake j.id)) [
    | inl t ↦ rw t (update_found q.store j.id k recovered)
    | inr t ↦ rw t (update_found q.store j.id k recovered)
  ])
  | inr e ↦ rw e refl
]

recover_find :
    (intake : Intake) (q : Queue) (js : List Job) (k : Text)
    → find_job (recover intake q js).store k
      ≡ (if is_met k js then changed recovered (find_job q.store k) else find_job q.store k)
unfolding recover
recover_find intake q [] k = refl
recover_find intake q (j ∷ js) k =
    rw (recover_find intake (recover_one intake q j) js k, recover_one-find intake q j k)
      (recovered_twice (is_unfinished j && text_eq j.id k) (is_met k js) (find_job q.store k))

recover_one-waiting :
    (intake : Intake) (q : Queue) (j : Job)
    → (recover_one intake q j).waiting ≡ q.waiting ++ left_over intake (j ∷ [])
unfolding recover_one put_state push
recover_one-waiting intake q j = elim (Bool-cases (is_unfinished j)) [
  | inl e ↦ rw e (elim (Bool-cases (takes intake j.id)) [
    | inl t ↦ rw t (sym (append-nil q.waiting))
    | inr t ↦ rw t refl
  ])
  | inr e ↦ rw e (sym (append-nil q.waiting))
]

left_over-cons :
    (intake : Intake) (j : Job) (js : List Job)
    → left_over intake (j ∷ js) ≡ left_over intake (j ∷ []) ++ left_over intake js
left_over-cons intake j js = elim (Bool-cases (is_unfinished j)) [
  | inl e ↦ rw e (elim (Bool-cases (takes intake j.id)) [ inl t ↦ rw t refl | inr t ↦ rw t refl ])
  | inr e ↦ rw e refl
]

recover_waiting :
    (intake : Intake) (q : Queue) (js : List Job)
    → (recover intake q js).waiting ≡ q.waiting ++ left_over intake js
unfolding recover
recover_waiting intake q [] = sym (append-nil q.waiting)
recover_waiting intake q (j ∷ js) =
    rw
      (
        recover_waiting intake (recover_one intake q j) js,
        recover_one-waiting intake q j,
        append_assoc q.waiting (left_over intake (j ∷ [])) (left_over intake js),
        ← left_over-cons intake j js,
      )
      refl

otherwise : (b : Bool) (x y : Queue) → b ≡ false → (if b then x else y) ≡ y
otherwise true x y h = absurd (true≢false h)
otherwise false x y h = refl

first_start :
    (intake : Intake) (q : Queue)
    → q.started ≡ false
    → State.start intake q ≡ record (recover intake q (list_jobs q.store 1000)) { started = true }
unfolding State.start
first_start intake q h = otherwise q.started _ _ h

-- At the first `start`, the unfinished ones among the 1000 latest jobs, those that wait or that ran when
-- the process ended, wait again, and the backend has them or else the queue, in the order of the list;
-- every other job is as it was.
pub start_lem :
    (intake : Intake) (q : Queue)
    → q.started ≡ false
    → let after = State.start intake q in
      let jobs = list_jobs q.store 1000 in
      (after.started ≡ true)
      × (after.waiting ≡ q.waiting ++ left_over intake jobs)
      × ((k : Text)
          → find_job after.store k ≡ (
              if is_met k jobs then changed recovered (find_job q.store k) else find_job q.store k))
start_lem intake q h = rw (first_start intake q h) (
  refl,
  recover_waiting intake q (list_jobs q.store 1000),
  recover_find intake q (list_jobs q.store 1000),
)
