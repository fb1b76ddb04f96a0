-- ===== src/Scheduler/Modes.antt =====
-- Quality modes of src/dubbing_pipeline/runtime/scheduler.py: the texts that jobs carry, the keys of
-- the per-mode tables, and the step down under backpressure.
use dubbing_pipeline.Base.{
  ℕ, ◌≡◌, Bool, true, false, Text, codes, text_eq, lower, strip, or_else, if◌then◌else◌, arith,
}

abbrev pub high_mode : Text
high_mode = codes "high"

abbrev pub medium_mode : Text
medium_mode = codes "medium"

abbrev pub low_mode : Text
low_mode = codes "low"

-- `(mode or "medium").lower().strip()`
unfoldable pub norm_mode : Text → Text
norm_mode mode = strip (lower (or_else mode medium_mode))

unfoldable pub next_lower_mode : Text → Text
next_lower_mode mode =
    let m = norm_mode mode in
    if text_eq m high_mode
    then medium_mode
    else if text_eq m medium_mode
    then low_mode
    else low_mode

pub data ModeKey : Type 0 where
  high medium low : ModeKey

abbrev pub mode_text : ModeKey → Text
mode_text high = high_mode
mode_text medium = medium_mode
mode_text low = low_mode

-- The key under which a record counts: an unknown mode counts as medium.
unfoldable pub mode_key : Text → ModeKey
mode_key mode =
    let m = norm_mode mode in
    if text_eq m high_mode then high else if text_eq m low_mode then low else medium

-- A dictionary over the three keys.
pub record Counts : Type 0 where
  pub at_high : ℕ
  pub at_medium : ℕ
  pub at_low : ℕ

abbrev pub count_at : Counts → ModeKey → ℕ
count_at c high = c.at_high
count_at c medium = c.at_medium
count_at c low = c.at_low

abbrev pub set_count : Counts → ModeKey → ℕ → Counts
set_count c high n = record c { at_high = n }
set_count c medium n = record c { at_medium = n }
set_count c low n = record c { at_low = n }

abbrev pub key_eq : ModeKey → ModeKey → Bool
key_eq high high = true
key_eq medium medium = true
key_eq low low = true
key_eq _ _ = false

pub count_at-set_count :
    (c : Counts) (m k : ModeKey) (n : ℕ)
    → count_at (set_count c m n) k ≡ (if key_eq m k then n else count_at c k)
count_at-set_count c m k n = ground arith
