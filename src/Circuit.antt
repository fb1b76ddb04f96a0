-- ===== src/Circuit.antt =====
-- The circuit breaker of src/dubbing_pipeline/utils/circuit.py: `Circuit` with its three states. The
-- clock is an argument, in milliseconds; threshold and cooldown are read from the settings.
pub mod Invariant
pub mod Trials
mod Examples
use dubbing_pipeline.Base.{
  ℕ, ℤ, pos, negsuc, ◌+◌, Bool, true, false, Option, none, some, List, [], ◌∷◌, Text, Dict, get,
  put, leb, if◌then◌else◌, ltb,
}

pub data State : Type 0 where
  closed open_ half_open : State

pub record Config : Type 0 where
  pub fail_threshold : ℤ
  pub cooldown : ℕ

pub record Circuit : Type 0 where
  pub state : State
  pub failures : ℕ
  pub opened_at : ℕ
  pub half_open_inflight : Bool

-- `Circuit.__init__`
unfoldable pub new : Circuit
new = record { state = closed; failures = 0; opened_at = 0; half_open_inflight = false }

-- `failures >= threshold`
abbrev pub reaches : ℕ → ℤ → Bool
reaches n (pos t) = leb t n
reaches n (negsuc t) = true

abbrev try_trial : Circuit → Bool × Circuit
try_trial c =
    if c.half_open_inflight then (false, c) else (true, record c { half_open_inflight = true })

abbrev allow_in : State → Config → ℕ → Circuit → Bool × Circuit
allow_in closed cfg now c = (true, c)
allow_in open_ cfg now c =
    if leb (c.opened_at + cfg.cooldown) now
    then try_trial (record c { state = half_open; half_open_inflight = false })
    else (false, c)
allow_in half_open cfg now c = try_trial c

-- `Circuit.allow`: the answer, and the circuit after it
unfoldable pub allow : Config → ℕ → Circuit → Bool × Circuit
allow cfg now c = allow_in c.state cfg now c

-- `Circuit.mark_success`
unfoldable pub mark_success : Circuit → Circuit
mark_success c = record { state = closed; failures = 0; opened_at = 0; half_open_inflight = false }

abbrev open_now : ℕ → Circuit → Circuit
open_now now c = record c { state = open_; opened_at = now; half_open_inflight = false }

abbrev settle : State → Circuit → Circuit
settle open_ c = record c { state = closed }
settle _ c = c

abbrev fail_in : State → Config → ℕ → Circuit → Circuit
fail_in half_open cfg now c = open_now now c
fail_in st cfg now c = if reaches c.failures cfg.fail_threshold then open_now now c else settle st c

-- `Circuit.mark_failure`
unfoldable pub mark_failure : Config → ℕ → Circuit → Circuit
mark_failure cfg now c = fail_in c.state cfg now (record c { failures = c.failures + 1 })

abbrev found_or_new : Dict Circuit → Text → Option Circuit → Circuit × Dict Circuit
found_or_new reg name (some c) = (c, reg)
found_or_new reg name none = (new, put reg name new)

-- `Circuit.get`: the circuit of a name, made on the first call
unfoldable pub get_circuit : Dict Circuit → Text → Circuit × Dict Circuit
get_circuit reg name = found_or_new reg name (get reg name)

-- The calls of a history, and the answers to the `allow`s among them.
pub data Call : Type 0 where
  allows : ℕ → Call
  succeeds : Call
  fails : ℕ → Call

unfoldable pub call : Config → Circuit → Call → Circuit
unfolding allow mark_success mark_failure
call cfg c (allows now) = (allow cfg now c).1
call cfg c succeeds = mark_success c
call cfg c (fails now) = mark_failure cfg now c

unfoldable pub run : Config → Circuit → List Call → Circuit
run cfg c [] = c
run cfg c (k ∷ ks) = run cfg (call cfg c k) ks

unfoldable pub ask : Config → Circuit → List ℕ → List Bool
ask cfg c [] = []
ask cfg c (now ∷ later) = (allow cfg now c).0 ∷ ask cfg (allow cfg now c).1 later
