-- ===== src/Scheduler/Invariant.antt =====
-- What holds of the scheduler between two calls: the heap in order, the caps, the semaphores.
use native.Mathlib.Numerals.{add-one}
use dubbing_pipeline.Base.{ℕ, ◌≤◌, ◌+◌, ◌≡◌, arith, max, Text}
use dubbing_pipeline.Jobs.Store.{JobStore}
use dubbing_pipeline.Scheduler.Modes.{high, medium, low}
use dubbing_pipeline.Scheduler.Heap.{JobRecord}
use dubbing_pipeline.Scheduler.State.{
  Phase, audio, transcribe, tts, mux, phase_at, Scheduler, Settings, init, mode_cap,
}
use dubbing_pipeline.Scheduler.Submit.{
  Verdict, keep_mode, degrade, delay, submit_as, enqueue_record,
}
use dubbing_pipeline.Scheduler.Order.{
  IsHeap, Numbered, Numbered-suc, Numbered-IsFresh, heappush-IsHeap, heappush-Numbered,
}

abbrev pub Ordered : Scheduler → Type 0
Ordered s = IsHeap s.heap × Numbered s.seq s.heap

-- No cap is exceeded, neither the global one nor that of a mode.
pub record IsCapped (s : Scheduler) : Type 0 where
  pub global_cap : s.active_global ≤ s.max_global
  pub high_cap : s.active_by_mode.at_high ≤ mode_cap s high
  pub medium_cap : s.active_by_mode.at_medium ≤ mode_cap s medium
  pub low_cap : s.active_by_mode.at_low ≤ mode_cap s low

abbrev pub phase_limit : Scheduler → Phase → ℕ
phase_limit s audio = max 1 s.max_global
phase_limit s transcribe = s.max_transcribe
phase_limit s tts = s.max_tts
phase_limit s mux = max 1 s.max_global

-- The threads in a phase, those on their way in or out and the free slots of its semaphore make up the
-- limit of the phase.
abbrev pub Balanced : Scheduler → Type 0
Balanced s =
    (p : Phase)
    → phase_at s.active_phase p
        + phase_at s.entering p
        + phase_at s.leaving p
        + phase_at s.phase_sem p
      ≡ phase_limit s p

pub record Inv (s : Scheduler) : Type 0 where
  pub ordered : Ordered s
  pub capped : IsCapped s
  pub balanced : Balanced s

pub init-Inv : (c : Settings) → Inv (init c)
unfolding init mode_cap
init-Inv c = record { ordered = (tt, tt); capped = ground arith; balanced = λ p. ground arith }

pub enqueue_record-Inv :
    (s : Scheduler) (job : JobRecord) (mode : Text) (at : ℕ)
    → Inv s
    → Inv (enqueue_record s job mode at)
unfolding enqueue_record mode_cap
enqueue_record-Inv s job mode at v =
    let (h, n) = v.ordered in
    let f = Numbered-IsFresh s.seq s.heap n in
    record {
      ordered = rw add-one (
        heappush-IsHeap _ s.heap f h,
        heappush-Numbered _ _ s.heap (omega arith) f (Numbered-suc s.seq s.heap n),
      );
      capped = ground arith;
      balanced = v.balanced;
    }

pub submit_as-Inv :
    (show : ℕ → Text) (s : Scheduler) (store : JobStore) (job : JobRecord) (mode : Text)
    → (now jitter : ℕ) (r : Verdict) → Inv s
    → Inv (submit_as show s store job mode now jitter r).0
unfolding submit_as
submit_as-Inv show s store job mode now jitter keep_mode v = enqueue_record-Inv s job _ _ v
submit_as-Inv show s store job mode now jitter degrade v = enqueue_record-Inv s job _ _ v
submit_as-Inv show s store job mode now jitter delay v = enqueue_record-Inv s job _ _ v
