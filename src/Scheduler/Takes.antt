-- ===== src/Scheduler/Takes.antt =====
-- What a round of the dispatcher of src/dubbing_pipeline/runtime/scheduler.py takes, and what it leaves.
use mathlib.Core.Path.{subst}
use mathlib.Core.List.{Perm}
use mathlib.Core.List.Perm
use dubbing_pipeline.Base.{
  ℕ, suc, ◌≤◌, ◌<◌, ◌+◌, ◌≡◌, refl, ◌⊎◌, false, List, [], ◌∷◌, arith, Bool-cases, inl, inr, put,
  map,
}
use dubbing_pipeline.Scheduler.Modes.{count_at, mode_key, set_count}
use dubbing_pipeline.Scheduler.Heap.{JobRecord, Entry, heappush}
use dubbing_pipeline.Scheduler.State.{Scheduler, mode_cap}
use dubbing_pipeline.Scheduler.Order.{IsHeap, Heads, heappush-perm}
use dubbing_pipeline.Scheduler.Invariant.{Inv}
use dubbing_pipeline.Scheduler.Dispatch.{waited, dispatched, dispatch, dispatch_head, postpone}

-- The record was at the head of the queue, its time had come, and there was room for it.
pub record Took (now : ℕ) (s : Scheduler) (rec : JobRecord) (t : Scheduler) : Type 0 where
  pub entry : Entry
  pub head : s.heap ≡ entry ∷ t.heap
  pub same : entry.rec ≡ rec
  pub least : Heads entry t.heap
  pub ready : entry.available_at ≤ now
  pub live : s.stop ≡ false
  pub global_room : s.active_global < s.max_global
  pub mode_room : count_at s.active_by_mode (mode_key rec.mode) < mode_cap s (mode_key rec.mode)
  pub counted : t.active_global ≡ suc s.active_global
  pub counted_mode :
      t.active_by_mode
      ≡ set_count s.active_by_mode
          (mode_key rec.mode)
          (count_at s.active_by_mode (mode_key rec.mode) + 1)
  pub noted : t.active_job_mode ≡ put s.active_job_mode rec.job_id (mode_key rec.mode)

head_Took :
    (now : ℕ) (s : Scheduler) (h : List Entry) (rec : JobRecord) (t : Scheduler)
    → s.stop ≡ false
    → s.heap ≡ h
    → IsHeap h
    → dispatch_head now s h ≡ (dispatched rec, t)
    → Took now s rec t
unfolding dispatch_head
head_Took now s [] rec t live hs v e = absurd (ground arith)
head_Took now s (x ∷ rest) rec t live hs v e = record {
  entry = x;
  head = ground arith;
  same = ground arith;
  least = subst (Heads x) (ground arith) v.0;
  ready = ground arith;
  live = live;
  global_room = ground arith;
  mode_room = ground arith;
  counted = ground arith;
  counted_mode = ground arith;
  noted = ground arith;
}

-- In a scheduler of which the invariant holds, a round takes a record only from the head of the
-- queue: one that no other queued record precedes, whose time has come, while the scheduler is not
-- stopped and has a free slot, in all and for the mode; and it counts the job there.
pub dispatch_takes :
    (now : ℕ) (s : Scheduler) {rec : JobRecord} {t : Scheduler}
    → Inv s
    → dispatch now s ≡ (dispatched rec, t)
    → Took now s rec t
unfolding dispatch
dispatch_takes now s {rec} {t} v e = elim (Bool-cases s.stop) [
  | inl b ↦ absurd (ground arith)
  | inr b ↦ head_Took now s s.heap rec t b refl v.ordered.0 (ground arith)
]

abbrev pub recs : List Entry → List JobRecord
recs = map (λ e. e.rec)

-- A round that takes none.
pub record Waited (s t : Scheduler) (ms : ℕ) : Type 0 where
  pub brief : ms ≤ 500
  pub kept : Perm (recs t.heap) (recs s.heap)
  pub same_global : t.active_global ≡ s.active_global
  pub same_mode : t.active_by_mode ≡ s.active_by_mode
  pub same_jobs : t.active_job_mode ≡ s.active_job_mode

recs_postpone :
    (e : Entry) (now n : ℕ) (rest : List Entry)
    → Perm (recs (heappush (postpone e now n) rest)) (e.rec ∷ recs rest)
unfolding postpone
recs_postpone e now n rest = Perm.map _ (heappush-perm _ rest)

heap_kept :
    (now : ℕ) (s : Scheduler) {ms : ℕ} {t : Scheduler}
    → dispatch_head now s [] ≡ (waited ms, t)
    → t.heap ≡ s.heap
unfolding dispatch_head
heap_kept now s e = ground arith

head_moves :
    (now : ℕ) (s : Scheduler) (x : Entry) (rest : List Entry) {ms : ℕ} {t : Scheduler}
    → dispatch_head now s (x ∷ rest) ≡ (waited ms, t)
    → (t.heap ≡ s.heap) ⊎ (t.heap ≡ heappush (postpone x now (s.seq + 1)) rest)
unfolding dispatch_head
head_moves now s x rest e = ground arith

head_Waited :
    (now : ℕ) (s : Scheduler) (h : List Entry) {ms : ℕ} {t : Scheduler}
    → s.heap ≡ h
    → dispatch_head now s h ≡ (waited ms, t)
    → Waited s t ms
unfolding dispatch_head
head_Waited now s [] hs e = record {
  brief = ground arith;
  kept = rw (heap_kept now s e) Perm.rfl;
  same_global = ground arith;
  same_mode = ground arith;
  same_jobs = ground arith;
}
head_Waited now s (x ∷ rest) hs e = record {
  brief = ground arith;
  kept = elim (head_moves now s x rest e) [
    | inl same ↦ rw same Perm.rfl
    | inr moved ↦ rw (moved, hs) (recs_postpone x now (s.seq + 1) rest)
  ];
  same_global = ground arith;
  same_mode = ground arith;
  same_jobs = ground arith;
}

-- A round that takes no record loses none: the queue holds the same records, as often, the counts
-- are as they were, and the wait is half a second at most.
pub dispatch_waits :
    (now : ℕ) (s : Scheduler) {ms : ℕ} {t : Scheduler}
    → dispatch now s ≡ (waited ms, t)
    → Waited s t ms
unfolding dispatch
dispatch_waits now s e = elim (Bool-cases s.stop) [
  | inl b ↦ absurd (ground arith)
  | inr b ↦ head_Waited now s s.heap refl (ground arith)
]
