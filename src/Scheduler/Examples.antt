-- ===== src/Scheduler/Examples.antt =====
-- A scheduler for two jobs, of which one may run in high mode.
use dubbing_pipeline.Base.{
  ℕ, ℤ, pos, ◌<◌, ◌≤◌, ◌≡◌, ◌≢◌, refl, arith, true, false, [], ◌∷◌, Option, none, some, Text, codes,
  text_eq, lower, strip, get, put,
}
use dubbing_pipeline.Jobs.Models.{Job, queued, absent, private_}
use dubbing_pipeline.Jobs.Store.{JobStore, find_job, update_job}
use dubbing_pipeline.Scheduler.Modes.{ModeKey, high, mode_key, norm_mode, next_lower_mode, count_at}
use dubbing_pipeline.Scheduler.Heap.{JobRecord, Entry, before, heappush, heapify}
use dubbing_pipeline.Scheduler.State.{Scheduler, Settings, init, mode_cap}
use dubbing_pipeline.Scheduler.Submit.{submit, submit_as, enqueue_record, backpressure}
use dubbing_pipeline.Scheduler.Ops.{on_job_done, drop, reprioritize, any_of, is_of}
use dubbing_pipeline.Scheduler.Dispatch.{
  waited, dispatched, dispatch, dispatch_head, start_job, postpone, enqueue_one, enqueue_found,
  align_job, align,
}
use dubbing_pipeline.Scheduler.Order.{IsHeap}
use dubbing_pipeline.Scheduler.Invariant.{Inv}
use dubbing_pipeline.Scheduler.Books.{Books}
use dubbing_pipeline.Scheduler.World.{
  World, submits, polls, enqueues, Reach, start_world, Reach-Inv,
}
use dubbing_pipeline.Scheduler.Progress.{poll, poll_serves}
use dubbing_pipeline.Scheduler.Takes.{Took, dispatch_takes}
use dubbing_pipeline.Scheduler.Reprioritized.{reprioritize_lost}
use dubbing_pipeline.Scheduler.Histories.{OrderlyReach, OrderlyReach-Books}
use dubbing_pipeline.Scheduler.Running.{IsWithinCaps, OrderlyReach-IsWithinCaps}
use dubbing_pipeline.Scheduler.Handover.{Fate, enqueue_one-Fate}

abbrev settings : Settings
settings = record {
  max_concurrency_global = pos 2;
  max_concurrency_transcribe = pos 1;
  max_concurrency_tts = pos 1;
  max_jobs_high = pos 1;
  max_jobs_medium = pos 0;
  max_jobs_low = pos 2;
  backpressure_q_max = pos 1;
}

abbrev job_of : Text → Text → Job
job_of id mode = record {
  id = id;
  owner_id = codes "ann";
  duration_s = 0;
  mode = mode;
  device = codes "auto";
  created_at = [];
  state = queued;
  message = [];
  error = none;
  metadata = absent;
  visibility = private_;
}

abbrev rec_of : Text → Text → ℕ → JobRecord
rec_of id mode at = record {
  job_id = id;
  mode = mode;
  device_pref = codes "auto";
  created_at = at;
  priority = pos 100;
}

abbrev store : JobStore
store =
    (codes "a", job_of (codes "a") (codes "high"))
    ∷ (codes "b", job_of (codes "b") (codes "low"))
    ∷ []

abbrev rec_a : JobRecord
rec_a = rec_of (codes "a") (codes "high") 900

abbrev rec_b : JobRecord
rec_b = rec_of (codes "b") (codes "low") 950

abbrev no_text : ℕ → Text
no_text ms = []

abbrev takes_all : Job → Option Text
takes_all job = none

abbrev entry_of : JobRecord → ℕ → ℕ → Entry
entry_of rec at n = record {
  available_at = at;
  priority = rec.priority;
  created_at = rec.created_at;
  seq = n;
  rec = rec;
}

-- A scheduler in which `a` runs in high mode.
abbrev busy : Scheduler
busy = record {
  heap = [];
  seq = 1;
  stop = false;
  max_global = 2;
  max_transcribe = 1;
  max_tts = 1;
  max_by_mode = record { at_high = 1; at_medium = 0; at_low = 2 };
  bp_qmax = pos 1;
  active_global = 1;
  active_by_mode = record { at_high = 1; at_medium = 0; at_low = 0 };
  active_job_mode = (codes "a", high) ∷ [];
  active_phase = record { at_audio = 0; at_transcribe = 0; at_tts = 0; at_mux = 0 };
  phase_sem = record { at_audio = 2; at_transcribe = 1; at_tts = 1; at_mux = 2 };
  entering = record { at_audio = 0; at_transcribe = 0; at_tts = 0; at_mux = 0 };
  leaving = record { at_audio = 0; at_transcribe = 0; at_tts = 0; at_mux = 0 };
}

abbrev running_a : World
running_a = record { sched = busy; store = store; pending = none }

busy-Reach : Reach no_text takes_all (start_world no_text takes_all settings store) running_a
unfolding init submit submit_as backpressure enqueue_record heappush before norm_mode
    next_lower_mode mode_key mode_cap dispatch dispatch_head start_job enqueue_one enqueue_found
    align_job align find_job update_job get put text_eq lower strip
busy-Reach =
    Reach.then_
      (Reach.then_ (Reach.then_ Reach.here (submits false 1000 0 rec_a refl)) (polls 1000 refl))
      (enqueues rec_a refl)

busy-Inv : Inv busy
busy-Inv = Reach-Inv no_text takes_all settings store busy-Reach

busy-OrderlyReach :
    OrderlyReach no_text takes_all (start_world no_text takes_all settings store) running_a
unfolding init submit submit_as backpressure enqueue_record heappush before norm_mode
    next_lower_mode mode_key mode_cap dispatch dispatch_head start_job enqueue_one enqueue_found
    align_job align find_job update_job get put text_eq lower strip
busy-OrderlyReach =
    OrderlyReach.then_
      (OrderlyReach.then_
        (OrderlyReach.then_ OrderlyReach.here (submits false 1000 0 rec_a refl) tt)
        (polls 1000 refl) refl)
      (enqueues rec_a refl) (high, refl)

OrderlyReach-IsWithinCaps_example : Inv busy × IsWithinCaps busy
OrderlyReach-IsWithinCaps_example =
    OrderlyReach-IsWithinCaps no_text takes_all settings store busy-OrderlyReach

OrderlyReach-Books_example : Books busy
OrderlyReach-Books_example = OrderlyReach-Books no_text takes_all settings store busy-OrderlyReach

-- Another record in high mode waits ahead of one in low mode.
abbrev rec_c : JobRecord
rec_c = rec_of (codes "c") (codes "high") 940

abbrev waiting : Scheduler
waiting = record busy { heap = entry_of rec_c 1000 2 ∷ entry_of rec_b 1010 3 ∷ []; seq = 3 }

waiting-IsHeap : IsHeap waiting.heap
unfolding before
waiting-IsHeap = ((refl, tt), (tt, tt))

low_room :
    count_at waiting.active_by_mode (mode_key rec_b.mode) < mode_cap waiting (mode_key rec_b.mode)
unfolding mode_key mode_cap norm_mode text_eq lower strip
low_room = omega arith

poll_serves_example : (rec : JobRecord) × ((poll (1020 ∷ 1280 ∷ []) waiting).0 ≡ some rec)
poll_serves_example =
    poll_serves waiting (entry_of rec_c 1000 2 ∷ []) (entry_of rec_b 1010 3) [] (1020 ∷ 1280 ∷ [])
      waiting-IsHeap refl refl (omega arith, (omega arith, tt)) (omega arith) low_room (omega arith)

-- The second round takes the record in low mode.
takes_low : (poll (1020 ∷ 1280 ∷ []) waiting).0 ≡ some rec_b
unfolding poll dispatch dispatch_head postpone heappush before start_job mode_key mode_cap norm_mode
    text_eq lower strip
takes_low = refl

abbrev only_b : Scheduler
only_b = record busy { heap = entry_of rec_b 1010 1 ∷ [] }

abbrev b_taken : Scheduler
b_taken = record busy {
  active_global = 2;
  active_by_mode = record { at_high = 1; at_medium = 0; at_low = 1 };
  active_job_mode = (codes "a", high) ∷ (codes "b", ModeKey.low) ∷ [];
}

only_b-Inv : Inv only_b
unfolding before mode_cap
only_b-Inv = record {
  ordered = ((tt, tt), (omega arith, tt, tt));
  capped = record {
    global_cap = omega arith;
    high_cap = omega arith;
    medium_cap = omega arith;
    low_cap = omega arith;
  };
  balanced = busy-Inv.balanced;
}

b_dispatched : dispatch 1020 only_b ≡ (dispatched rec_b, b_taken)
unfolding dispatch dispatch_head start_job mode_key mode_cap norm_mode text_eq lower strip get put
b_dispatched = refl

dispatch_takes_example : Took 1020 only_b rec_b b_taken
dispatch_takes_example = dispatch_takes 1020 only_b only_b-Inv b_dispatched

-- The record in high mode goes behind.
abbrev postponed : Scheduler
postponed = record waiting { heap = entry_of rec_b 1010 3 ∷ entry_of rec_c 1520 4 ∷ []; seq = 4 }

waiting_waits : dispatch 1020 waiting ≡ (waited 250, postponed)
unfolding dispatch dispatch_head postpone heappush before mode_key mode_cap norm_mode text_eq lower
    strip
waiting_waits = refl

-- The record in high mode, moved to the front by an operator.
abbrev urgent : Entry
urgent = record (entry_of rec_c 1000 2) { priority = pos 1 }

abbrev before_promotion : Scheduler
before_promotion = record busy { heap = entry_of rec_c 1000 2 ∷ []; seq = 2 }

abbrev promoted : Scheduler
promoted = (reprioritize before_promotion (codes "c") (pos 1)).0

promotes :
    ((reprioritize before_promotion (codes "c") (pos 1)).1 ≡ true)
    × (promoted.heap ≡ urgent ∷ [])
    × (promoted.stop ≡ false)
unfolding reprioritize any_of heapify heappush text_eq
promotes = (refl, refl, refl)

c_urgent : is_of (codes "c") urgent ≡ true
unfolding text_eq
c_urgent = refl

high_full :
    mode_cap promoted (mode_key rec_c.mode) ≤ count_at promoted.active_by_mode (mode_key rec_c.mode)
unfolding mode_key mode_cap norm_mode text_eq lower strip reprioritize any_of
high_full = omega arith

one_not_100 : ◌≢◌ {A = ℤ} (pos 1) (pos 100)
one_not_100 e = ground arith

reprioritize_lost_example :
    (urgent.priority ≡ pos 1)
    × ((x : Entry) × (x.rec ≡ rec_c)
        × (x.priority ≡ pos 100)
        × (x.priority ≢ pos 1)
        × (x.available_at ≡ 1520)
        × ((dispatch 1020 promoted).1.heap ≡ heappush x []))
reprioritize_lost_example =
    reprioritize_lost 1020 before_promotion (codes "c") (pos 1) urgent [] (promotes.0) (promotes.1)
      c_urgent one_not_100 (promotes.2) (omega arith) high_full

dropped_c : drop waiting (codes "c") ≡ (record waiting { heap = entry_of rec_b 1010 3 ∷ [] }, 1)
unfolding drop heapify heappush text_eq
dropped_c = refl

-- Two records wait, one more than the limit: a medium job steps down.
abbrev rec_d : JobRecord
rec_d = rec_of (codes "d") (codes "medium") 990

abbrev stepped_down : Scheduler
stepped_down = record waiting {
  heap =
      entry_of rec_c 1000 2
      ∷ entry_of (record rec_d { mode = codes "low" }) 1005 4
      ∷ entry_of rec_b 1010 3
      ∷ [];
  seq = 4;
}

steps_down : submit no_text false 1005 0 waiting store rec_d ≡ some (stepped_down, store)
unfolding submit submit_as backpressure enqueue_record heappush before norm_mode next_lower_mode
    update_job find_job get text_eq lower strip
steps_down = refl

-- The job queue refuses.
abbrev refuses : Job → Option Text
refuses job = some (codes "queue full")

enqueue_one-Fate_example : Fate refuses rec_a busy store (enqueue_one refuses rec_a busy store)
enqueue_one-Fate_example = enqueue_one-Fate refuses rec_a busy store

refused_slot : (enqueue_one refuses rec_a busy store).0 ≡ on_job_done busy (codes "a")
unfolding enqueue_one enqueue_found align_job align find_job get text_eq
refused_slot = refl
