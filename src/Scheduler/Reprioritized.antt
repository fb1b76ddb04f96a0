-- ===== src/Scheduler/Reprioritized.antt =====
-- A priority that `reprioritize` of src/dubbing_pipeline/runtime/scheduler.py has changed.
use mathlib.Core.Path.{subst}
use mathlib.Core.Bool.{true≢false}
use dubbing_pipeline.Base.{
  ℕ, ℤ, ◌≤◌, ◌+◌, ◌≡◌, refl, sym, ◌∙◌, ◌≢◌, true, false, List, [], ◌∷◌, Bool-cases, inl, inr,
  not_ltb, le→leb, map, All, Text, is_empty,
}
use dubbing_pipeline.Scheduler.Modes.{count_at, mode_key}
use dubbing_pipeline.Scheduler.Heap.{Entry, heappush}
use dubbing_pipeline.Scheduler.State.{Scheduler, mode_cap}
use dubbing_pipeline.Scheduler.Order.{All-heapify}
use dubbing_pipeline.Scheduler.Ops.{is_of, set_priority, any_of, reprioritize}
use dubbing_pipeline.Scheduler.Dispatch.{dispatch, dispatch_head, postpone}

-- The entries of a job under a new priority.
HasPriority : Text → ℤ → Entry → Type 0
HasPriority id pr e = is_of id e ≡ true → e.priority ≡ pr

set_priority-HasPriority :
    (id : Text) (pr : ℤ) (h : List Entry) → All (HasPriority id pr) (map (set_priority id pr) h)
unfolding HasPriority
set_priority-HasPriority id pr [] = tt
set_priority-HasPriority id pr (e ∷ h) = (by_job, set_priority-HasPriority id pr h)
  where
    by_job : is_of id (set_priority id pr e) ≡ true → (set_priority id pr e).priority ≡ pr
    by_job of_job = elim (Bool-cases (is_of id e)) [
      | inl b ↦ rw b refl
      | inr b ↦ absurd (true≢false (sym of_job ∙ (rw b b)))
    ]

reprioritize-HasPriority :
    (s : Scheduler) (id : Text) (pr : ℤ)
    → (reprioritize s id pr).1 ≡ true
    → All (HasPriority id pr) (reprioritize s id pr).0.heap
unfolding reprioritize
reprioritize-HasPriority s id pr found = elim (Bool-cases (is_empty id)) [
  | inl b ↦ absurd (true≢false (sym found ∙ rw b refl))
  | inr b ↦ elim (Bool-cases (any_of id s.heap)) [
    | inl c ↦
        rw (b, c)
          (All-heapify (HasPriority id pr) (map (set_priority id pr) s.heap)
            (set_priority-HasPriority id pr s.heap))
    | inr c ↦ absurd (true≢false (sym found ∙ rw (b, c) refl))
  ]
]

head_postponed :
    (now : ℕ) (s : Scheduler) (e : Entry) (rest : List Entry)
    → s.heap ≡ e ∷ rest
    → s.stop ≡ false
    → e.available_at ≤ now
    → mode_cap s (mode_key e.rec.mode) ≤ count_at s.active_by_mode (mode_key e.rec.mode)
    → (dispatch now s).1.heap ≡ heappush (postpone e now (s.seq + 1)) rest
unfolding dispatch dispatch_head
head_postponed now s e rest h live r full =
    simp (h, live, not_ltb now e.available_at r, le→leb _ _ full)

-- A changed priority does not survive a wait for the mode. Where `reprioritize` has given a queued job
-- another priority than that of its record, and the job is then the head of the queue of a scheduler that
-- is not stopped, its time has come and its mode is full, its entry had the new priority, and the next
-- round queues it under the priority of the record again, due half a second later.
pub reprioritize_lost :
    (now : ℕ) (s : Scheduler) (id : Text) (pr : ℤ) (e : Entry) (rest : List Entry)
    → let t = (reprioritize s id pr).0 in
      (reprioritize s id pr).1 ≡ true
      → t.heap ≡ e ∷ rest
      → is_of id e ≡ true
      → pr ≢ e.rec.priority
      → t.stop ≡ false
      → e.available_at ≤ now
      → mode_cap t (mode_key e.rec.mode) ≤ count_at t.active_by_mode (mode_key e.rec.mode)
      → (e.priority ≡ pr)
        × ((x : Entry) × (x.rec ≡ e.rec)
            × (x.priority ≡ e.rec.priority)
            × (x.priority ≢ pr)
            × (x.available_at ≡ now + 500)
            × ((dispatch now t).1.heap ≡ heappush x rest))
unfolding postpone HasPriority
reprioritize_lost now s id pr e rest found head of_job differs live due full =
    let all : All (HasPriority id pr) (e ∷ rest) =
      subst (All (HasPriority id pr)) head (reprioritize-HasPriority s id pr found) in
    (
      all.0 of_job,
      (
        postpone e now ((reprioritize s id pr).0.seq + 1),
        refl,
        refl,
        (λ p. differs (sym p)),
        refl,
        head_postponed now (reprioritize s id pr).0 e rest head live due full,
      ),
    )
