-- ===== src/Scheduler/Progress.antt =====
-- Liveness of the dispatcher of src/dubbing_pipeline/runtime/scheduler.py: a record whose mode has a
-- free slot is not held back by records of full modes.
use mathlib.Core.Path.{subst}
use native.Mathlib.Nat.{le_trans}
use dubbing_pipeline.Base.{
  ℕ, ◌≤◌, ◌<◌, ◌+◌, ◌≡◌, ap, Bool, true, false, List, [], ◌∷◌, ◌++◌, arith, All, Bool-cases, Option,
  none, some, leb, length, inl, inr, not_ltb, not_leb,
}
use dubbing_pipeline.Scheduler.Order.{IsHeap, Heads, before-available_at}
use dubbing_pipeline.Scheduler.Modes.{count_at, mode_key}
use dubbing_pipeline.Scheduler.Heap.{JobRecord, Entry, before, heappush}
use dubbing_pipeline.Scheduler.State.{Scheduler, mode_cap}
use dubbing_pipeline.Scheduler.Dispatch.{
  Round, stopped, waited, dispatched, dispatch, dispatch_head, postpone, start_job,
}

-- The rounds of the loop at the given times, up to the first that takes a record off the queue.
abbrev after_round :
    (Scheduler → Option JobRecord × Scheduler) → Round × Scheduler → Option JobRecord × Scheduler
after_round next (stopped, s) = (none, s)
after_round next (waited ms, s) = next s
after_round next (dispatched rec, s) = (some rec, s)

unfoldable pub poll : List ℕ → Scheduler → Option JobRecord × Scheduler
poll [] s = (none, s)
poll (now ∷ later) s = after_round (λ t. poll later t) (dispatch now s)

before-lt : (a b : Entry) → a.available_at < b.available_at → before b a ≡ false
unfolding before
before-lt a b h = ground arith

-- A postponed record goes behind all that are ready.
heappush-append :
    (x e : Entry) (pre post : List Entry)
    → e.available_at < x.available_at
    → All (λ y. y.available_at ≤ e.available_at) pre
    → heappush x (pre ++ e ∷ post) ≡ pre ++ e ∷ heappush x post
unfolding heappush
heappush-append x e [] post h q = rw (before-lt e x h)
heappush-append x e (y ∷ pre) post h q =
    rw (before-lt y x (omega arith)) (ap (◌∷◌ y) (heappush-append x e pre post h q.1))

is_full : Scheduler → Entry → Bool
is_full s x =
    leb (mode_cap s (mode_key x.rec.mode)) (count_at s.active_by_mode (mode_key x.rec.mode))

head_takes :
    (now : ℕ) (s : Scheduler) (x : Entry) (rest : List Entry)
    → x.available_at ≤ now
    → is_full s x ≡ false
    → s.active_global < s.max_global
    → dispatch_head now s (x ∷ rest)
      ≡ (dispatched x.rec, start_job s rest x.rec (mode_key x.rec.mode))
unfolding dispatch_head is_full
head_takes now s x rest r f g =
    rw (not_ltb now x.available_at r, f, not_leb s.max_global s.active_global g)

head_waits :
    (now : ℕ) (s : Scheduler) (x : Entry) (rest : List Entry)
    → x.available_at ≤ now
    → is_full s x ≡ true
    → dispatch_head now s (x ∷ rest) ≡ (
      waited 250,
      record s { heap = heappush (postpone x now (s.seq + 1)) rest; seq = s.seq + 1 },
    )
unfolding dispatch_head is_full
head_waits now s x rest r f = rw (not_ltb now x.available_at r, f)

unstopped :
    (now : ℕ) (s : Scheduler) (h : List Entry)
    → s.stop ≡ false
    → s.heap ≡ h
    → dispatch now s ≡ dispatch_head now s h
unfolding dispatch
unstopped now s h e f = simp (e, f)

-- Rounds at any times at which `e` is ready: each postpones a record ahead of `e`, or takes one.
poll_ahead :
    (times : List ℕ) (s : Scheduler) (pre : List Entry) (e : Entry) (post : List Entry)
    → s.heap ≡ pre ++ e ∷ post
    → s.stop ≡ false
    → All (λ y. y.available_at ≤ e.available_at) pre
    → All (λ t. e.available_at ≤ t) times
    → length pre < length times
    → is_full s e ≡ false
    → s.active_global < s.max_global
    → (rec : JobRecord) × ((poll times s).0 ≡ some rec)
unfolding poll
poll_ahead [] s pre e post h live a r l f g = absurd (omega arith)
poll_ahead (now ∷ later) s [] e post h live a r l f g =
    (e.rec, rw (unstopped now s _ live h, head_takes now s e post r.0 f g))
poll_ahead (now ∷ later) s (x ∷ pre) e post h live a r l f g = elim (Bool-cases (is_full s x)) [
  | inr free ↦ (
    x.rec,
    rw (unstopped now s _ live h, head_takes now s x (pre ++ e ∷ post) (le_trans a.0 r.0) free g),
  )
  | inl full ↦
      let (rec, done) =
        poll_ahead later
          (record s {
            heap = heappush (postpone x now (s.seq + 1)) (pre ++ e ∷ post);
            seq = s.seq + 1;
          })
          pre e (heappush (postpone x now (s.seq + 1)) post)
          (heappush-append _ e pre post (unfold postpone in omega (arith, r.0)) a.1) live a.1 r.1
          (omega arith) (unfold is_full mode_cap in f) g in
      (
        rec,
        rw (unstopped now s _ live h, head_waits now s x (pre ++ e ∷ post) (le_trans a.0 r.0) full)
            done,
      )
]

-- In a heap, what stands ahead of a record is ready no later.
ahead_ready :
    (pre : List Entry) (e : Entry) (post : List Entry)
    → IsHeap (pre ++ e ∷ post)
    → All (λ y. y.available_at ≤ e.available_at) pre
ahead_ready [] e post h = tt
ahead_ready (x ∷ pre) e post h =
    (before-available_at x e (Heads-mid x pre e post h.0), ahead_ready pre e post h.1)
  where
    Heads-mid :
        (x : Entry) (pre : List Entry) (e : Entry) (post : List Entry)
        → Heads x (pre ++ e ∷ post)
        → before x e ≡ true
    Heads-mid x [] e post h = h.0
    Heads-mid x (y ∷ pre) e post h = Heads-mid x pre e post h.1

-- While the queue is in dispatch order and the scheduler is not stopped, a queued record that is
-- ready, and whose mode and the whole scheduler have a free slot, is not held back by records of
-- full modes ahead of it: within one round for each record ahead of it and one more, at any times
-- from its own on, the dispatcher takes a record off the queue.
pub poll_serves :
    (s : Scheduler) (pre : List Entry) (e : Entry) (post : List Entry) (times : List ℕ)
    → IsHeap s.heap
    → s.heap ≡ pre ++ e ∷ post
    → s.stop ≡ false
    → All (λ t. e.available_at ≤ t) times
    → length pre < length times
    → count_at s.active_by_mode (mode_key e.rec.mode) < mode_cap s (mode_key e.rec.mode)
    → s.active_global < s.max_global
    → (rec : JobRecord) × ((poll times s).0 ≡ some rec)
poll_serves s pre e post times v h live r l f g =
    poll_ahead times s pre e post h live (ahead_ready pre e post (subst IsHeap h v)) r l
      (unfold is_full in not_leb _ _ f) g
