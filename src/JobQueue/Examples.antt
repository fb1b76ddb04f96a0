-- ===== src/JobQueue/Examples.antt =====
-- Calls on a small queue of src/dubbing_pipeline/jobs/queue_impl.py.
use dubbing_pipeline.Base.{
  List, pos, ℕ, ◌+◌, ◌-◌, ◌%◌, ◌==◌, drop-append_at, length-append, ◌<◌, ◌≡◌, refl, arith, [], ◌∷◌,
  ◌++◌, none, some, true, false, if◌then◌else◌, Text, codes, text_eq, strip, lower, length, get, ok,
  err, show_ℕ,
}
use dubbing_pipeline.Crypto.Words
use dubbing_pipeline.Crypto.Words.{pack_u32}
use dubbing_pipeline.Crypto.Container.{
  aad_base, aad_at, encrypt_chunks, encrypt_bytes, encrypt_file, replaced,
}
use dubbing_pipeline.Crypto.Examples.{toy, tag, sum, nonces, nonces_12, toy-IsAead}
use dubbing_pipeline.Uploads.Session.{bytes_of}
use dubbing_pipeline.JobQueue.Input.{not_decrypted, input_video, after_input, sealed_upload_fails}
use dubbing_pipeline.Jobs.Models.{Job, JobState, queued, running, failed, Metadata, private_}
use dubbing_pipeline.Jobs.Store.{JobStore, find_job, list_jobs, changed}
use dubbing_pipeline.JobQueue.State
use dubbing_pipeline.JobQueue.State.{Queue, mem, put_state, push, recover, recover_one, new}
use dubbing_pipeline.JobQueue.Workers.{World, Gate, pass_gate, finished}
use dubbing_pipeline.JobQueue.Calls.{
  Call, enqueue_id, cancel, kill, pause, resume, round, end_run, perform, perform_all,
}
use dubbing_pipeline.JobQueue.Canceled.{runs}
use dubbing_pipeline.JobQueue.Rounds.{IsStopped}
use dubbing_pipeline.Scheduler.Modes.{medium}
use dubbing_pipeline.Scheduler.State.{Scheduler, init}
use dubbing_pipeline.JobQueue.Slots.{System}
use dubbing_pipeline.Scheduler.Books.{Books}
use dubbing_pipeline.JobQueue.Stopped.{canceled_never_runs}
use dubbing_pipeline.JobQueue.Resumed.{At, resumed_runs_twice}
use dubbing_pipeline.JobQueue.Recovery.{is_met, recovered, left_over, start_lem}

abbrev job : Text → JobState → Job
job id state = record {
  id = id;
  owner_id = codes "ann";
  duration_s = 0;
  mode = codes "medium";
  device = codes "cpu";
  created_at = codes "2026-01-01";
  state = state;
  message = [];
  error = none;
  metadata = Metadata.absent;
  visibility = private_;
}

abbrev a : Text
a = codes "a"

abbrev b : Text
b = codes "b"

abbrev store : JobStore
store = (a, job a queued) ∷ (b, job b running) ∷ []

abbrev idle : Queue
idle = record { store = store; concurrency = 1; waiting = []; cancels = []; started = false }

abbrev waiting_a : World
waiting_a = record {
  queue = record idle { concurrency = 2; waiting = a ∷ []; started = true };
  active = [];
}

abbrev gate : Gate
gate = some (λ st id. (st, some true))

a_found : find_job store a ≡ some (job a queued)
unfolding find_job get text_eq
a_found = refl

a_waits : At a 2 queued (a ∷ []) [] waiting_a
unfolding mem
a_waits = record {
  job = job a queued;
  found = a_found;
  in_state = refl;
  queue_is = refl;
  active_is = refl;
  not_canceled = refl;
  is_live = refl;
  workers = refl;
}

gate_open : (st : JobStore) → pass_gate gate st a ≡ (st, true)
unfolding pass_gate
gate_open st = refl

a_clean : strip a ≡ a
unfolding strip
a_clean = refl

a_quiet : runs (find_job store a) ≡ false
unfolding find_job get text_eq
a_quiet = refl

a_inactive : mem a [] ≡ false
unfolding mem
a_inactive = refl

resumed_runs_twice_example :
    let again = perform_all gate waiting_a (pause a ∷ round ∷ resume a ∷ enqueue_id a ∷ []) in
    At a 2 queued (a ∷ a ∷ []) [] again
    × At a 2 running [] (a ∷ []) (perform_all gate again (round ∷ end_run a finished ∷ round ∷ []))
    × (1 < 2 → At a 2 running [] (a ∷ a ∷ []) (perform_all gate again (round ∷ round ∷ [])))
resumed_runs_twice_example =
    resumed_runs_twice a gate 2 waiting_a gate_open a_clean refl (omega arith) a_waits

canceled_never_runs_example :
    IsStopped a (
      perform_all gate
        (perform gate waiting_a (cancel a))
        (resume a ∷ enqueue_id a ∷ round ∷ round ∷ []))
    × ((reason : Text)
        → IsStopped a (
            perform_all gate
              (perform gate waiting_a (kill a reason))
              (resume a ∷ enqueue_id a ∷ round ∷ round ∷ [])))
canceled_never_runs_example =
    canceled_never_runs gate waiting_a a (resume a ∷ enqueue_id a ∷ round ∷ round ∷ [])
      (λ st k id still. still) (tt, (tt, (tt, (tt, tt)))) a_quiet a_inactive

start_example :
    let after = State.start none idle in
    let jobs = list_jobs store 1000 in
    (after.started ≡ true)
    × (after.waiting ≡ [] ++ left_over none jobs)
    × ((k : Text)
        → find_job after.store k
          ≡ (if is_met k jobs then changed recovered (find_job store k) else find_job store k))
start_example = start_lem none idle refl

abbrev movie : Text
movie = codes "movie"

abbrev sealed : Text
sealed = bytes_of (encrypt_file toy nonces (some movie) none (codes "uploads") []).0

sealed_made : encrypt_bytes toy nonces movie (codes "uploads") [] ≡ ok sealed
unfolding encrypt_file replaced encrypt_bytes encrypt_chunks pack_u32 toy nonces
sealed_made = refl

abbrev here : Text
here = aad_at (aad_base (codes "uploads") []) 0

abbrev there : Text
there = aad_at (aad_base (codes "uploads") a) 0

eq_false : (x y : ℕ) → (x ≡ y → ⊥) → (x == y) ≡ false
eq_false x y h = ground arith

sums : (sum here ≡ 2662) × (sum there ≡ 2759)
unfolding sum aad_at aad_base lower strip show_ℕ
sums = (refl, refl)

heads_differ : (n : Text) → (sum n + sum here) % 256 ≡ (sum n + sum there) % 256 → ⊥
heads_differ n e = omega (arith, sums)

tags_differ : (n : Text) → text_eq (tag n here) (tag n there) ≡ false
unfolding tag text_eq
tags_differ n =
    rw (eq_false ((sum n + sum here) % 256) ((sum n + sum there) % 256) (heads_differ n)) refl

tag_16 : (n aad : Text) → length (tag n aad) ≡ 16
unfolding tag
tag_16 n aad = refl

-- The checksums for the two contexts differ by the letter of the id.
toy_refuses :
    (n pt : Text)
    → toy.decrypt n
        (toy.encrypt n pt (aad_at (aad_base (codes "uploads") []) 0))
        (aad_at (aad_base (codes "uploads") a) 0)
      ≡ none
unfolding toy
toy_refuses n pt =
    rw
      (
        drop-append_at (length (pt ++ tag n here) - 16) pt (tag n here)
            (omega (arith, length-append pt (tag n here), tag_16 n here)),
        tags_differ n,
      )
      refl

abbrev a_runs : World
a_runs = record {
  queue = record idle { store = (a, job a running) ∷ []; started = true };
  active = a ∷ [];
}

a_runs-At : At a 1 running [] (a ∷ []) a_runs
unfolding mem find_job get text_eq
a_runs-At = record {
  job = job a running;
  found = refl;
  in_state = refl;
  queue_is = refl;
  active_is = refl;
  not_canceled = refl;
  is_live = refl;
  workers = refl;
}

a_some : 0 < length (strip a)
unfolding strip
a_some = omega arith

sealed_upload_fails_example :
    (input_video (ok toy) sealed a ≡ err (not_decrypted Words.Error.invalid_tag))
    × At a 1 failed [] [] (after_input a_runs a (input_video (ok toy) sealed a))
sealed_upload_fails_example =
    sealed_upload_fails toy nonces toy-IsAead nonces_12 a movie sealed (omega arith) a_some
      (λ n pt _. toy_refuses n pt) sealed_made 1 [] [] a_runs a_runs-At

abbrev counted : Scheduler
counted =
    record (init (record {
      max_concurrency_global = pos 1;
      max_concurrency_transcribe = pos 1;
      max_concurrency_tts = pos 1;
      max_jobs_high = pos 1;
      max_jobs_medium = pos 1;
      max_jobs_low = pos 1;
      backpressure_q_max = pos 1;
    })) {
      active_global = 1;
      active_by_mode = record { at_high = 0; at_medium = 1; at_low = 0 };
      active_job_mode = (a, medium) ∷ [];
    }

abbrev system : System
system = record { scheduler = counted; world = waiting_a }

abbrev slot_calls : List Call
slot_calls = round ∷ round ∷ end_run a finished ∷ []
