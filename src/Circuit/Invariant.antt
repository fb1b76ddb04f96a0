-- ===== src/Circuit/Invariant.antt =====
-- What holds of a circuit of src/dubbing_pipeline/utils/circuit.py between two calls.
use dubbing_pipeline.Base.{
  ℕ, pos, suc, ◌+◌, ◌≤◌, ◌≡◌, arith, true, false, List, [], ◌∷◌, length, ◌↔◌, ◌≢◌, ◌∙◌,
}
use dubbing_pipeline.Circuit.{
  closed, open_, half_open, Config, Circuit, new, reaches, Call, allows, succeeds, fails, call, run,
}

-- A trial is under way only in the half-open state, a closed circuit has failed less often than the
-- threshold since the last success, and one that is not closed at least as often.
pub record Inv (cfg : Config) (c : Circuit) : Type 0 where
  pub trial : c.half_open_inflight ≡ true → c.state ≡ half_open
  pub few : c.state ≡ closed → reaches c.failures cfg.fail_threshold ≡ false
  pub many : c.state ≡ open_ → reaches c.failures cfg.fail_threshold ≡ true
  pub many_half : c.state ≡ half_open → reaches c.failures cfg.fail_threshold ≡ true

new-Inv : (cfg : Config) (t : ℕ) → cfg.fail_threshold ≡ pos (suc t) → Inv cfg new
unfolding new
new-Inv cfg t h = ground arith

call-Inv :
    (cfg : Config) (t : ℕ) (c : Circuit) (k : Call)
    → cfg.fail_threshold ≡ pos (suc t)
    → Inv cfg c
    → Inv cfg (call cfg c k)
unfolding call
call-Inv cfg t c (allows now) h v = ground arith
call-Inv cfg t c succeeds h v = ground arith
call-Inv cfg t c (fails now) h v = ground arith

run_from-Inv :
    (cfg : Config) (t : ℕ) (c : Circuit) (ks : List Call)
    → cfg.fail_threshold ≡ pos (suc t)
    → Inv cfg c
    → Inv cfg (run cfg c ks)
unfolding run
run_from-Inv cfg t c [] h v = v
run_from-Inv cfg t c (k ∷ ks) h v = run_from-Inv cfg t (call cfg c k) ks h (call-Inv cfg t c k h v)

-- With a positive threshold, after any calls on a new circuit: a trial is under way only in the
-- half-open state, a closed circuit has failed less often than the threshold since the last success,
-- and an open or half-open one at least as often.
pub run-Inv :
    (cfg : Config) (t : ℕ) (ks : List Call)
    → cfg.fail_threshold ≡ pos (suc t)
    → Inv cfg (run cfg new ks)
run-Inv cfg t ks h = run_from-Inv cfg t new ks h (new-Inv cfg t h)

-- Failures at the given times.
unfoldable pub failures_at : List ℕ → List Call
failures_at [] = []
failures_at (now ∷ later) = fails now ∷ failures_at later

failures_count :
    (cfg : Config) (c : Circuit) (times : List ℕ)
    → (run cfg c (failures_at times)).failures ≡ c.failures + length times
unfolding run failures_at
failures_count cfg c [] = omega arith
failures_count cfg c (now ∷ later) =
    omega (arith, failures_count cfg (call cfg c (fails now)) later, fails-count cfg c now)
  where
    fails-count :
        (cfg : Config) (c : Circuit) (now : ℕ) → (call cfg c (fails now)).failures ≡ c.failures + 1
    fails-count cfg c now = unfold call in ground arith

never_half :
    (cfg : Config) (c : Circuit) (times : List ℕ)
    → c.state ≢ half_open
    → (run cfg c (failures_at times)).state ≢ half_open
unfolding run failures_at
never_half cfg c [] h = h
never_half cfg c (now ∷ later) h =
    never_half cfg (call cfg c (fails now)) later (unfold call in ground arith)

-- With a positive threshold, a new circuit that only sees failures is open exactly from the
-- threshold on, whatever the times.
pub opens_at_threshold :
    (cfg : Config) (t : ℕ) (times : List ℕ)
    → cfg.fail_threshold ≡ pos (suc t)
    → ((run cfg new (failures_at times)).state ≡ open_) ↔ (suc t ≤ length times)
opens_at_threshold cfg t times h =
    let c = run cfg new (failures_at times) in
    let v = run-Inv cfg t (failures_at times) h in
    let n : c.failures ≡ length times = failures_count cfg new times ∙ unfold new in omega arith in
    let w = never_half cfg new times (unfold new in cc) in (opened c v n, reached c v n w)
  where
    opened :
        (c : Circuit)
        → Inv cfg c
        → c.failures ≡ length times
        → c.state ≡ open_
        → suc t ≤ length times
    opened c v n e = ground (arith, v.many e)

    reached :
        (c : Circuit)
        → Inv cfg c
        → c.failures ≡ length times
        → c.state ≢ half_open
        → suc t ≤ length times
        → c.state ≡ open_
    reached c v n w l = ground arith
