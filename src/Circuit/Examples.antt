-- ===== src/Circuit/Examples.antt =====
-- A circuit that opens after two failures and cools for thirty seconds.
use dubbing_pipeline.Base.{
  All, ◌<◌, ◌+◌, ℕ, pos, ◌≡◌, refl, arith, true, false, List, [], ◌∷◌, get, put, text_eq, codes,
}
use dubbing_pipeline.Circuit.{
  closed, open_, half_open, Config, Circuit, new, allow, mark_success, mark_failure, ask, run, call,
  allows, succeeds, fails, get_circuit,
}
use dubbing_pipeline.Circuit.Invariant.{Inv, run-Inv}
use dubbing_pipeline.Circuit.Trials.{Refused, trial_exclusive}

abbrev two_strikes : Config
two_strikes = record { fail_threshold = pos 2; cooldown = 30000 }

abbrev tripped : Circuit
tripped = record { state = open_; failures = 2; opened_at = 5000; half_open_inflight = false }

abbrev on_trial : Circuit
on_trial = record { state = half_open; failures = 2; opened_at = 5000; half_open_inflight = true }

-- The second failure opens the circuit, which keeps its time.
trips : run two_strikes new (allows 0 ∷ fails 10 ∷ allows 20 ∷ fails 5000 ∷ []) ≡ tripped
unfolding run call new allow mark_failure
trips = refl

-- A success in between forgets the failures.
success_forgets :
    run two_strikes new (fails 10 ∷ succeeds ∷ fails 20 ∷ []) ≡ record new { failures = 1 }
unfolding run call new mark_success mark_failure
success_forgets = refl

answers : ask two_strikes tripped (34999 ∷ 35000 ∷ 35001 ∷ []) ≡ false ∷ true ∷ false ∷ []
unfolding ask allow
answers = refl

-- The second request for a name finds the circuit that the first one made.
same_circuit :
    let made = get_circuit [] (codes "whisper") in get_circuit made.1 (codes "whisper") ≡ made
unfolding get_circuit get put text_eq
same_circuit = refl

run-Inv_example :
    Inv two_strikes (run two_strikes new (fails 10 ∷ fails 5000 ∷ allows 40000 ∷ fails 41000 ∷ []))
run-Inv_example =
    run-Inv two_strikes 1 (fails 10 ∷ fails 5000 ∷ allows 40000 ∷ fails 41000 ∷ []) refl

abbrev three_times : List ℕ
three_times = 10 ∷ 5000 ∷ 7 ∷ []

tripped_not_closed : ¬ (tripped.state ≡ closed)
tripped_not_closed e = ground arith

tripped_trial : allow two_strikes 40000 tripped ≡ (true, on_trial)
unfolding allow
tripped_trial = refl

trial_exclusive_example :
    Refused (ask two_strikes on_trial (40001 ∷ 90000 ∷ []))
    × (mark_success on_trial ≡ new)
    × ((u : ℕ)
        → ((mark_failure two_strikes u on_trial).state ≡ open_)
          × ((mark_failure two_strikes u on_trial).opened_at ≡ u)
          × ((later : List ℕ)
              → All (λ t. t < u + two_strikes.cooldown) later
              → Refused (ask two_strikes (mark_failure two_strikes u on_trial) later)))
trial_exclusive_example =
    trial_exclusive two_strikes 40000 tripped on_trial (40001 ∷ 90000 ∷ []) tripped_not_closed
      tripped_trial

abbrev one_strike : Circuit
one_strike = record { state = closed; failures = 1; opened_at = 0; half_open_inflight = false }

one_strike_opens : (mark_failure two_strikes 5000 one_strike).state ≡ open_
unfolding mark_failure
one_strike_opens = refl
