-- ===== src/Scheduler/Queue.antt =====
-- What `submit`, `drop` and `reprioritize` of src/dubbing_pipeline/runtime/scheduler.py do to the queue.
use mathlib.Core.Path.{subst}
use mathlib.Core.Option.{none-ne-some, some-injective}
use mathlib.Core.Bool.{true≢false}
use mathlib.Core.List.{Perm}
use mathlib.Core.List.Perm
use dubbing_pipeline.Base.{
  ℕ, ℤ, ◌≤◌, ◌+◌, ◌≡◌, refl, sym, ap, ◌∙◌, ◌≢◌, Bool, true, false, not, List, [], ◌∷◌, arith, All,
  Bool-cases, some, inl, inr, Text, map, length, keep, is_empty, text_eq_iff, text_eq_sound,
  length-keep-le,
}
use dubbing_pipeline.Jobs.Store.{JobStore}
use dubbing_pipeline.Scheduler.Modes.{norm_mode, next_lower_mode}
use dubbing_pipeline.Scheduler.Heap.{JobRecord, Entry}
use dubbing_pipeline.Scheduler.State.{Scheduler}
use dubbing_pipeline.Scheduler.Order.{heappush-perm, heapify-perm, All-heapify, length-heapify}
use dubbing_pipeline.Scheduler.Ops.{drop, reprioritize, is_of, set_priority, any_of}
use dubbing_pipeline.Scheduler.Submit.{
  Verdict, keep_mode, degrade, delay, over_limit, submit, submit_as, enqueue_record, backpressure,
  backpressure_delay,
}

All-keep_test : (p : Entry → Bool) (h : List Entry) → All (λ e. p e ≡ true) (keep p h)
All-keep_test p [] = tt
All-keep_test p (x ∷ h) = elim (Bool-cases (p x)) [
  | inl b ↦ rw b (b, All-keep_test p h)
  | inr b ↦ rw b (All-keep_test p h)
]

-- What `drop` leaves and what it counts.
pub record Dropped (s : Scheduler) (jid : Text) (t : Scheduler) (n : ℕ) : Type 0 where
  pub kept : Perm t.heap (keep (λ e. not (is_of jid e)) s.heap)
  pub gone : All (λ e. is_of jid e ≡ false) t.heap
  pub number : n + length t.heap ≡ length s.heap
  pub running : t.active_job_mode ≡ s.active_job_mode

not-true : (b : Bool) → not b ≡ true → b ≡ false
not-true b h = ground arith

All-not :
    (jid : Text) (h : List Entry)
    → All (λ e. not (is_of jid e) ≡ true) h
    → All (λ e. is_of jid e ≡ false) h
All-not jid [] q = tt
All-not jid (x ∷ h) q = (not-true _ q.0, All-not jid h q.1)

-- Dropping a job of a name that is not empty takes all of its records off the queue and none of
-- another job, counts them, and leaves the running jobs alone.
pub drop_lem :
    (s : Scheduler) (jid : Text)
    → is_empty jid ≡ false
    → Dropped s jid (drop s jid).0 (drop s jid).1
unfolding drop
drop_lem s [] h = ground arith
drop_lem s (c ∷ jid) h =
    let p = λ (e : Entry). not (is_of (c ∷ jid) e) in
    record {
      kept = heapify-perm (keep p s.heap);
      gone =
          All-heapify _ (keep p s.heap)
            (All-not (c ∷ jid) (keep p s.heap) (All-keep_test p s.heap));
      number = omega (arith, length-heapify (keep p s.heap), length-keep-le p s.heap);
      running = refl;
    }

-- For a job of a name that is not empty, a changed priority is that of every queued record of the
-- job, and nothing else of the queue changes; the answer is whether the job has a queued record.
pub reprioritize_lem :
    (s : Scheduler) (jid : Text) (pr : ℤ)
    → is_empty jid ≡ false
    → Perm (reprioritize s jid pr).0.heap (map (set_priority jid pr) s.heap)
      × ((reprioritize s jid pr).1 ≡ any_of jid s.heap)
unfolding reprioritize
reprioritize_lem s [] pr h = ground arith
reprioritize_lem s (c ∷ jid) pr h = elim (Bool-cases (any_of (c ∷ jid) s.heap)) [
  | inl b ↦ rw b (heapify-perm (map (set_priority (c ∷ jid) pr) s.heap), refl)
  | inr b ↦ rw b (rw (untouched (c ∷ jid) pr s.heap b) Perm.rfl, refl)
]
  where
    untouched :
        (jid : Text) (pr : ℤ) (h : List Entry)
        → any_of jid h ≡ false
        → map (set_priority jid pr) h ≡ h
    untouched jid pr [] e = refl
    untouched jid pr (x ∷ h) e = ground (arith, untouched jid pr h)

-- The new entry of an accepted submission.
pub record Queued (s : Scheduler) (job : JobRecord) (now jitter : ℕ) (t : Scheduler) : Type 0 where
  pub entry : Entry
  pub added : Perm t.heap (entry ∷ s.heap)
  pub number : entry.seq ≡ t.seq
  pub next : t.seq ≡ s.seq + 1
  pub same_job : entry.rec.job_id ≡ job.job_id
  pub same_priority : entry.priority ≡ job.priority
  pub in_limit :
      over_limit s.bp_qmax (length s.heap) ≡ false
      → (entry.rec.mode ≡ norm_mode job.mode) × (entry.available_at ≡ now)
  pub lowered :
      over_limit s.bp_qmax (length s.heap) ≡ true
      → next_lower_mode (norm_mode job.mode) ≢ norm_mode job.mode
      → (entry.rec.mode ≡ next_lower_mode (norm_mode job.mode)) × (entry.available_at ≡ now)
  pub delayed :
      over_limit s.bp_qmax (length s.heap) ≡ true
      → next_lower_mode (norm_mode job.mode) ≡ norm_mode job.mode
      → (entry.rec.mode ≡ norm_mode job.mode)
        × (now + 1250 ≤ entry.available_at)
        × (entry.available_at ≤ now + 30000)

delay_bounds :
    (q : ℤ) (n jitter : ℕ)
    → over_limit q n ≡ true
    → (1250 ≤ backpressure_delay q n jitter) × (backpressure_delay q n jitter ≤ 30000)
unfolding backpressure_delay
delay_bounds q n jitter h = ground arith

-- The tests behind each verdict.
keep_mode_when :
    (s : Scheduler) (mode : Text)
    → backpressure s mode ≡ keep_mode
    → over_limit s.bp_qmax (length s.heap) ≡ false
unfolding backpressure
keep_mode_when s mode h = ground arith

degrade_when :
    (s : Scheduler) (mode : Text)
    → backpressure s mode ≡ degrade
    → (over_limit s.bp_qmax (length s.heap) ≡ true) × (next_lower_mode mode ≢ mode)
unfolding backpressure
degrade_when s mode h =
    (ground arith, λ e. ground (arith, (text_eq_iff (next_lower_mode mode) mode).1 e))

delay_when :
    (s : Scheduler) (mode : Text)
    → backpressure s mode ≡ delay
    → (over_limit s.bp_qmax (length s.heap) ≡ true) × (next_lower_mode mode ≡ mode)
unfolding backpressure
delay_when s mode h = (ground arith, text_eq_sound _ _ (ground arith))

module _ (show : ℕ → Text) (s : Scheduler) (store : JobStore) (job : JobRecord)
    (now jitter : ℕ) where
  submit_as-Queued :
      (r : Verdict)
      → backpressure s (norm_mode job.mode) ≡ r
      → Queued s job now jitter (submit_as show s store job (norm_mode job.mode) now jitter r).0
  unfolding submit_as enqueue_record
  submit_as-Queued keep_mode h = record {
    entry = _;
    added = heappush-perm _ s.heap;
    number = refl;
    next = refl;
    same_job = refl;
    same_priority = refl;
    in_limit = λ o. (refl, refl);
    lowered = λ o d. absurd (true≢false (sym o ∙ keep_mode_when s _ h));
    delayed = λ o d. absurd (true≢false (sym o ∙ keep_mode_when s _ h));
  }
  submit_as-Queued degrade h = record {
    entry = _;
    added = heappush-perm _ s.heap;
    number = refl;
    next = refl;
    same_job = refl;
    same_priority = refl;
    in_limit = λ o. absurd (true≢false (sym (degrade_when s _ h).0 ∙ o));
    lowered = λ o d. (refl, refl);
    delayed = λ o d. absurd ((degrade_when s _ h).1 d);
  }
  submit_as-Queued delay h = record {
    entry = _;
    added = heappush-perm _ s.heap;
    number = refl;
    next = refl;
    same_job = refl;
    same_priority = refl;
    in_limit = λ o. absurd (true≢false (sym (delay_when s _ h).0 ∙ o));
    lowered = λ o d. absurd (d (delay_when s _ h).1);
    delayed = λ o d.
        let (low, high) = delay_bounds s.bp_qmax (length s.heap) jitter o in
        (refl, omega (arith, low), omega (arith, high));
  }

  -- An accepted submission adds exactly one record to the queue, for the same job at the same
  -- priority, under the next number. Within the backpressure limit it has the mode that was asked for
  -- and is ready at once; above the limit it has the next lower mode and is ready at once, or, where
  -- there is no lower mode, the same mode and is ready after 1.25 to 30 seconds.
  pub submit-Queued :
      (draining : Bool) {t : Scheduler} {store' : JobStore}
      → submit show draining now jitter s store job ≡ some (t, store')
      → (draining ≡ false) × Queued s job now jitter t
  unfolding submit
  submit-Queued true e = absurd (none-ne-some _ e)
  submit-Queued false e = (
    refl,
    subst (Queued s job now jitter) (ap (λ p. p.0) (some-injective _ _ e))
        (submit_as-Queued (backpressure s (norm_mode job.mode)) refl),
  )
