-- ===== src/Scheduler/State.antt =====
-- The object of src/dubbing_pipeline/runtime/scheduler.py and its constructor.
use dubbing_pipeline.Base.{
  ℕ, ℤ, pos_part, max, Bool, false, List, [], Dict, Text, Option, none, some, codes, text_eq,
  if◌then◌else◌, ◌==◌,
}
use dubbing_pipeline.Scheduler.Modes.{ModeKey, Counts, count_at}
use dubbing_pipeline.Scheduler.Heap.{Entry}

pub data Phase : Type 0 where
  audio transcribe tts mux : Phase

-- A dictionary over the four phases.
pub record Phases : Type 0 where
  pub at_audio : ℕ
  pub at_transcribe : ℕ
  pub at_tts : ℕ
  pub at_mux : ℕ

abbrev pub phase_at : Phases → Phase → ℕ
phase_at p audio = p.at_audio
phase_at p transcribe = p.at_transcribe
phase_at p tts = p.at_tts
phase_at p mux = p.at_mux

abbrev pub set_phase : Phases → Phase → ℕ → Phases
set_phase p audio n = record p { at_audio = n }
set_phase p transcribe n = record p { at_transcribe = n }
set_phase p tts n = record p { at_tts = n }
set_phase p mux n = record p { at_mux = n }

-- The object. The last two are no fields of it: they count the threads that hold a slot of the semaphore
-- of a phase while they are not in `active_phase`, on their way in and on their way out.
pub record Scheduler : Type 0 where
  pub heap : List Entry
  pub seq : ℕ
  pub stop : Bool
  pub max_global : ℕ
  pub max_transcribe : ℕ
  pub max_tts : ℕ
  pub max_by_mode : Counts
  pub bp_qmax : ℤ
  pub active_global : ℕ
  pub active_by_mode : Counts
  pub active_job_mode : Dict ModeKey
  pub active_phase : Phases
  pub phase_sem : Phases
  pub entering : Phases
  pub leaving : Phases

-- What the constructor reads from the settings.
pub record Settings : Type 0 where
  pub max_concurrency_global : ℤ
  pub max_concurrency_transcribe : ℤ
  pub max_concurrency_tts : ℤ
  pub max_jobs_high : ℤ
  pub max_jobs_medium : ℤ
  pub max_jobs_low : ℤ
  pub backpressure_q_max : ℤ

abbrev at_least_one : ℤ → ℕ
at_least_one n = max 1 (pos_part n)

-- `Scheduler.__init__`; a semaphore is its counter
unfoldable pub init : Settings → Scheduler
init s =
    let max_global = at_least_one s.max_concurrency_global in
    let max_transcribe = at_least_one s.max_concurrency_transcribe in
    let max_tts = at_least_one s.max_concurrency_tts in
    record {
      heap = [];
      seq = 0;
      stop = false;
      max_global = max_global;
      max_transcribe = max_transcribe;
      max_tts = max_tts;
      max_by_mode = record {
        at_high = pos_part s.max_jobs_high;
        at_medium = pos_part s.max_jobs_medium;
        at_low = pos_part s.max_jobs_low;
      };
      bp_qmax = s.backpressure_q_max;
      active_global = 0;
      active_by_mode = record { at_high = 0; at_medium = 0; at_low = 0 };
      active_job_mode = [];
      active_phase = record { at_audio = 0; at_transcribe = 0; at_tts = 0; at_mux = 0 };
      phase_sem = record {
        at_audio = max 1 max_global;
        at_transcribe = max_transcribe;
        at_tts = max_tts;
        at_mux = max 1 max_global;
      };
      entering = record { at_audio = 0; at_transcribe = 0; at_tts = 0; at_mux = 0 };
      leaving = record { at_audio = 0; at_transcribe = 0; at_tts = 0; at_mux = 0 };
    }

-- The cap of a mode in `_dispatch_loop`: 0 falls back to the global one.
unfoldable pub mode_cap : Scheduler → ModeKey → ℕ
mode_cap s m = let cap = count_at s.max_by_mode m in if cap == 0 then s.max_global else cap

-- The names that `_phase_sem` knows.
unfoldable pub phase_of : Text → Option Phase
phase_of name =
    if text_eq name (codes "audio")
    then some audio
    else if text_eq name (codes "transcribe")
    then some transcribe
    else if text_eq name (codes "tts")
    then some tts
    else if text_eq name (codes "mux")
    then some mux
    else none
