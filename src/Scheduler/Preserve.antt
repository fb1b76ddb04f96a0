-- ===== src/Scheduler/Preserve.antt =====
-- Every method of the scheduler keeps its invariant.
use mathlib.Core.Path.{subst}
use mathlib.Core.Option.{some-injective, none-ne-some}
use native.Mathlib.Numerals.{add-one}
use dubbing_pipeline.Base.{
  ℕ, ℤ, ◌<◌, ◌+◌, ◌≡◌, refl, Bool, true, false, List, [], ◌∷◌, arith, All, Bool-cases, Option, none,
  some, if◌then◌else◌, keep, map, Text, inl, inr, leb, ltb, get, ap, ◌≢◌, ◌∙◌, ◌==◌,
}
use dubbing_pipeline.Jobs.Models.{Job, is_queued}
use dubbing_pipeline.Jobs.Store.{JobStore, find_job}
use dubbing_pipeline.Scheduler.Modes.{ModeKey, count_at, mode_key, high, medium, low}
use dubbing_pipeline.Scheduler.Heap.{JobRecord, Entry, heappush, heapify}
use dubbing_pipeline.Scheduler.State.{Phase, phase_at, Scheduler, mode_cap}
use dubbing_pipeline.Scheduler.Submit.{submit, backpressure}
use dubbing_pipeline.Scheduler.Ops.{
  on_job_done, release_mode, drop, reprioritize, request_stop, set_priority, any_of,
}
use dubbing_pipeline.Scheduler.Dispatch.{
  stopped, dispatch, dispatch_head, postpone, start_job, enqueue_one, enqueue_found, hand_over,
}
use dubbing_pipeline.Scheduler.Phases.{acquired, acquire, count_in, count_out, give_back}
use dubbing_pipeline.Scheduler.Order.{
  IsHeap, Numbered, Numbered-suc, Numbered-IsFresh, IsFresh, heappush-IsHeap, heappush-Numbered,
  heapify-ordered,
}
use dubbing_pipeline.Scheduler.Invariant.{IsCapped, Inv, submit_as-Inv}

pub submit-Inv :
    (show : ℕ → Text) (draining : Bool) (now jitter : ℕ) (s : Scheduler) (store : JobStore)
    → (job : JobRecord) {t : Scheduler} {store' : JobStore}
    → submit show draining now jitter s store job ≡ some (t, store')
    → Inv s
    → Inv t
unfolding submit
submit-Inv show true now jitter s store job e v = cc
submit-Inv show false now jitter s store job {t} e v =
    let r = submit_as-Inv show s store job _ now jitter (backpressure s _) v in
    subst Inv (ap (λ p. p.0) (some-injective _ _ e)) r

release_mode-Inv : (o : Option ModeKey) (s : Scheduler) → Inv s → Inv (release_mode o s)
unfolding mode_cap
release_mode-Inv none s v = v
release_mode-Inv (some m) s v = record {
  ordered = v.ordered;
  capped = release_mode-IsCapped m s v.capped;
  balanced = v.balanced;
}
  where
    release_mode-IsCapped :
        (m : ModeKey) (s : Scheduler) → IsCapped s → IsCapped (release_mode (some m) s)
    release_mode-IsCapped high s c = ground arith
    release_mode-IsCapped medium s c = ground arith
    release_mode-IsCapped low s c = ground arith

pub on_job_done-Inv : (s : Scheduler) (id : Text) → Inv s → Inv (on_job_done s id)
unfolding on_job_done mode_cap
on_job_done-Inv s id v =
    release_mode-Inv (get s.active_job_mode id) _
      (record { ordered = v.ordered; capped = ground arith; balanced = v.balanced })

-- A list of entries in which each number is that of the entry before.
All-keep : (P : Entry → Type 0) (p : Entry → Bool) (h : List Entry) → All P h → All P (keep p h)
All-keep P p [] q = tt
All-keep P p (x ∷ h) q = elim (Bool-cases (p x)) [
  | inl b ↦ rw b (q.0, All-keep P p h q.1)
  | inr b ↦ rw b (All-keep P p h q.1)
]

keep-Numbered : (n : ℕ) (p : Entry → Bool) (h : List Entry) → Numbered n h → Numbered n (keep p h)
keep-Numbered n p [] q = tt
keep-Numbered n p (x ∷ h) q = elim (Bool-cases (p x)) [
  | inl b ↦ rw b (q.0, All-keep (λ y. x.seq ≢ y.seq) p h q.1, keep-Numbered n p h q.2)
  | inr b ↦ rw b (keep-Numbered n p h q.2)
]

IsFresh-map :
    (n : ℕ) (f : Entry → Entry)
    → ((e : Entry) → (f e).seq ≡ e.seq)
    → (h : List Entry) → IsFresh n h
    → IsFresh n (map f h)
IsFresh-map n f same [] q = tt
IsFresh-map n f same (x ∷ h) q = ((λ p. q.0 (p ∙ same x)), IsFresh-map n f same h q.1)

map-Numbered :
    (n : ℕ) (f : Entry → Entry)
    → ((e : Entry) → (f e).seq ≡ e.seq)
    → (h : List Entry) → Numbered n h
    → Numbered n (map f h)
map-Numbered n f same [] q = tt
map-Numbered n f same (x ∷ h) q = (
  omega (arith, same x),
  IsFresh-map (f x).seq f same h (rw (same x) q.1),
  map-Numbered n f same h q.2,
)

reheap-Inv :
    (s : Scheduler) (h : List Entry)
    → Inv s
    → Numbered s.seq h
    → Inv (record s { heap = heapify h })
unfolding mode_cap
reheap-Inv s h v n = record {
  ordered = heapify-ordered s.seq h n;
  capped = ground arith;
  balanced = v.balanced;
}

pub drop-Inv : (s : Scheduler) (jid : Text) → Inv s → Inv (drop s jid).0
unfolding drop
drop-Inv s [] v = v
drop-Inv s (c ∷ jid) v = reheap-Inv s _ v (keep-Numbered s.seq _ s.heap v.ordered.1)

set_priority-seq : (jid : Text) (pr : ℤ) (e : Entry) → (set_priority jid pr e).seq ≡ e.seq
set_priority-seq jid pr e = ground arith

pub reprioritize-Inv : (s : Scheduler) (jid : Text) (pr : ℤ) → Inv s → Inv (reprioritize s jid pr).0
unfolding reprioritize
reprioritize-Inv s [] pr v = v
reprioritize-Inv s (c ∷ jid) pr v = elim (Bool-cases (any_of (c ∷ jid) s.heap)) [
  | inl b ↦
      rw b
        (reheap-Inv s _ v (map-Numbered s.seq _ (set_priority-seq (c ∷ jid) pr) s.heap v.ordered.1))
  | inr b ↦ rw b v
]

pub request_stop-Inv : (s : Scheduler) → Inv s → Inv (request_stop s)
unfolding request_stop mode_cap
request_stop-Inv s v = record { ordered = v.ordered; capped = ground arith; balanced = v.balanced }

postponed-Inv :
    (s : Scheduler) (e : Entry) (rest : List Entry) (now : ℕ)
    → s.heap ≡ e ∷ rest
    → Inv s
    → Inv (record s { heap = heappush (postpone e now (s.seq + 1)) rest; seq = s.seq + 1 })
unfolding postpone mode_cap
postponed-Inv s e rest now he v =
    let (h, n) = subst (λ l. IsHeap l × Numbered s.seq l) he v.ordered in
    let f = Numbered-IsFresh s.seq rest n.2 in
    record {
      ordered = rw add-one (
        heappush-IsHeap _ rest f h.1,
        heappush-Numbered _ _ rest (omega arith) f (Numbered-suc s.seq rest n.2),
      );
      capped = ground arith;
      balanced = v.balanced;
    }

start_job-Inv :
    (s : Scheduler) (e : Entry) (rest : List Entry) (m : ModeKey)
    → s.heap ≡ e ∷ rest
    → leb (mode_cap s m) (count_at s.active_by_mode m) ≡ false
    → leb s.max_global s.active_global ≡ false
    → Inv s
    → Inv (start_job s rest e.rec m)
unfolding start_job
start_job-Inv s e rest m he hm hg v =
    let (h, n) = subst (λ l. IsHeap l × Numbered s.seq l) he v.ordered in
    record { ordered = (h.1, n.2); capped = started m hm; balanced = v.balanced }
  where
    started :
        (m : ModeKey)
        → leb (mode_cap s m) (count_at s.active_by_mode m) ≡ false
        → IsCapped (start_job s rest e.rec m)
    started high hm = unfold mode_cap in ground arith
    started medium hm = unfold mode_cap in ground arith
    started low hm = unfold mode_cap in ground arith

dispatch_head-Inv :
    (now : ℕ) (s : Scheduler) (h : List Entry) → s.heap ≡ h → Inv s → Inv (dispatch_head now s h).1
unfolding dispatch_head
dispatch_head-Inv now s [] he v = v
dispatch_head-Inv now s (e ∷ rest) he v = elim (Bool-cases (ltb now e.available_at)) [
  | inl b ↦ rw b v
  | inr b ↦ rw b (elim (Bool-cases (leb (mode_cap s m) (count_at s.active_by_mode m))) [
    | inl c ↦ rw c (postponed-Inv s e rest now he v)
    | inr c ↦ rw c (elim (Bool-cases (leb s.max_global s.active_global)) [
      | inl d ↦ rw d v
      | inr d ↦ rw d (start_job-Inv s e rest m he c d v)
    ])
  ])
]
  where
    m : ModeKey
    m = mode_key e.rec.mode

pub dispatch-Inv : (now : ℕ) (s : Scheduler) → Inv s → Inv (dispatch now s).1
unfolding dispatch
dispatch-Inv now s v = by_stop s.stop
  where
    by_stop : (b : Bool) → Inv (if b then (stopped, s) else dispatch_head now s s.heap).1
    by_stop true = v
    by_stop false = dispatch_head-Inv now s s.heap refl v

hand_over-Inv :
    (o : Option Text) (job : Job) (id : Text) (s : Scheduler) (store : JobStore)
    → Inv s
    → Inv (hand_over o job id s store).0
hand_over-Inv none job id s store v = v
hand_over-Inv (some why) job id s store v = on_job_done-Inv s id v

pub enqueue_one-Inv :
    (cb : Job → Option Text) (rec : JobRecord) (s : Scheduler) (store : JobStore)
    → Inv s
    → Inv (enqueue_one cb rec s store).0
unfolding enqueue_one
enqueue_one-Inv cb rec s store v = by_job (find_job store rec.job_id)
  where
    by_job : (o : Option Job) → Inv (enqueue_found cb rec s store o).0
    by_job none = on_job_done-Inv s rec.job_id v
    by_job (some job) = elim (Bool-cases (is_queued job.state)) [
      | inl b ↦ rw b (hand_over-Inv _ _ rec.job_id s _ v)
      | inr b ↦ rw b (on_job_done-Inv s rec.job_id v)
    ]

acquired-Inv :
    (s : Scheduler) (p : Phase) → (phase_at s.phase_sem p == 0) ≡ false → Inv s → Inv (acquired s p)
unfolding acquired mode_cap
acquired-Inv s p h v = record {
  ordered = v.ordered;
  capped = ground arith;
  balanced = λ q. ground (arith, v.balanced q);
}

pub acquire-Inv : (s : Scheduler) (p : Phase) {t : Scheduler} → acquire s p ≡ some t → Inv s → Inv t
unfolding acquire
acquire-Inv s p {t} e v = elim (Bool-cases (phase_at s.phase_sem p == 0)) [
  | inl b ↦ absurd (none-ne-some _ (rw b at e))
  | inr b ↦ subst Inv (some-injective _ _ (rw b at e)) (acquired-Inv s p b v)
]

pub count_in-Inv :
    (s : Scheduler) (p : Phase) → 0 < phase_at s.entering p → Inv s → Inv (count_in s p)
unfolding count_in mode_cap
count_in-Inv s p h v = record {
  ordered = v.ordered;
  capped = ground arith;
  balanced = λ q. ground (arith, v.balanced q);
}

pub count_out-Inv :
    (s : Scheduler) (p : Phase) → 0 < phase_at s.active_phase p → Inv s → Inv (count_out s p)
unfolding count_out mode_cap
count_out-Inv s p h v = record {
  ordered = v.ordered;
  capped = ground arith;
  balanced = λ q. ground (arith, v.balanced q);
}

pub give_back-Inv :
    (s : Scheduler) (p : Phase) → 0 < phase_at s.leaving p → Inv s → Inv (give_back s p)
unfolding give_back mode_cap
give_back-Inv s p h v = record {
  ordered = v.ordered;
  capped = ground arith;
  balanced = λ q. ground (arith, v.balanced q);
}
