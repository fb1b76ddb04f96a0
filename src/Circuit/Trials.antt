-- ===== src/Circuit/Trials.antt =====
-- When a circuit of src/dubbing_pipeline/utils/circuit.py lets a call through.
use dubbing_pipeline.Base.{
  ℕ, ◌+◌, ◌≤◌, ◌<◌, ◌≡◌, ◌≢◌, refl, arith, Bool, true, false, List, [], ◌∷◌, All,
}
use dubbing_pipeline.Circuit.{
  closed, open_, half_open, Config, Circuit, new, allow, mark_success, mark_failure, ask,
}

-- Every answer is a refusal.
abbrev pub Refused : List Bool → Type 0
Refused = All (λ b. b ≡ false)

ask_stuck :
    (cfg : Config) (c : Circuit) (times : List ℕ)
    → ((now : ℕ) → allow cfg now c ≡ (false, c))
    → Refused (ask cfg c times)
unfolding ask
ask_stuck cfg c [] h = tt
ask_stuck cfg c (now ∷ later) h = rw (h now) (refl, ask_stuck cfg c later h)

trial_blocks :
    (cfg : Config) (now : ℕ) (c : Circuit)
    → c.state ≡ half_open
    → c.half_open_inflight ≡ true
    → allow cfg now c ≡ (false, c)
unfolding allow
trial_blocks cfg now c s i = ground arith

trial_begins :
    (cfg : Config) (now : ℕ) (c d : Circuit)
    → c.state ≢ closed
    → allow cfg now c ≡ (true, d)
    → (d.state ≡ half_open) × (d.half_open_inflight ≡ true)
unfolding allow
trial_begins cfg now c d h e = ground arith

cooling :
    (cfg : Config) (now : ℕ) (c : Circuit)
    → c.state ≡ open_
    → now < c.opened_at + cfg.cooldown
    → allow cfg now c ≡ (false, c)
unfolding allow
cooling cfg now c s h = ground arith

ask_cooling :
    (cfg : Config) (c : Circuit) (times : List ℕ)
    → c.state ≡ open_
    → All (λ now. now < c.opened_at + cfg.cooldown) times
    → Refused (ask cfg c times)
unfolding ask
ask_cooling cfg c [] s h = tt
ask_cooling cfg c (now ∷ later) s h =
    rw (cooling cfg now c s h.0) (refl, ask_cooling cfg c later s h.1)

trial_ends :
    (cfg : Config) (u : ℕ) (d : Circuit)
    → d.state ≡ half_open
    → ((mark_failure cfg u d).state ≡ open_) × ((mark_failure cfg u d).opened_at ≡ u)
unfolding mark_failure
trial_ends cfg u d s = ground arith

-- Once a circuit that is not closed has let a call through, it refuses all further calls, at whatever
-- times they come, as long as no success and no failure is reported. The first report ends that, whichever
-- call it is of: a success closes the circuit and forgets the failures, a failure opens it anew at the
-- time of the report, and no call is let through then before the cooldown is over.
pub trial_exclusive :
    (cfg : Config) (now : ℕ) (c d : Circuit) (times : List ℕ)
    → c.state ≢ closed
    → allow cfg now c ≡ (true, d)
    → Refused (ask cfg d times)
      × (mark_success d ≡ new)
      × ((u : ℕ)
          → ((mark_failure cfg u d).state ≡ open_)
            × ((mark_failure cfg u d).opened_at ≡ u)
            × ((later : List ℕ)
                → All (λ t. t < u + cfg.cooldown) later
                → Refused (ask cfg (mark_failure cfg u d) later)))
unfolding mark_success new
trial_exclusive cfg now c d times h e =
    let (s, i) = trial_begins cfg now c d h e in
    (
      ask_stuck cfg d times (λ t. trial_blocks cfg t d s i),
      refl,
      λ u.
          let (opened, at) = trial_ends cfg u d s in
          (opened, at, λ later a. ask_cooling cfg (mark_failure cfg u d) later opened (rw at a)),
    )

opens :
    (cfg : Config) (now : ℕ) (c : Circuit)
    → (mark_failure cfg now c).state ≡ open_
    → (mark_failure cfg now c).opened_at ≡ now
unfolding mark_failure
opens cfg now c h = ground arith

-- A failure that leaves the circuit open starts the cooldown: every call that comes before its end is
-- refused, and the first that comes from its end on is let through as a trial, which closes the
-- circuit if it succeeds and opens it anew at its own time if it fails.
pub failure_cools :
    (cfg : Config) (now : ℕ) (c : Circuit)
    → (mark_failure cfg now c).state ≡ open_
    → ((times : List ℕ)
        → All (λ t. t < now + cfg.cooldown) times
        → Refused (ask cfg (mark_failure cfg now c) times))
      × ((t : ℕ)
          → now + cfg.cooldown ≤ t
          → let r = allow cfg t (mark_failure cfg now c) in
            (r.0 ≡ true)
            × (mark_success r.1 ≡ new)
            × ((u : ℕ)
                → ((mark_failure cfg u r.1).state ≡ open_)
                  × ((mark_failure cfg u r.1).opened_at ≡ u)))
failure_cools cfg now c h =
    let o = opens cfg now c h in
    (
      (λ times a. ask_cooling cfg (mark_failure cfg now c) times h (rw o a)),
      λ t l. reopen (mark_failure cfg now c) t h (omega (arith, o)),
    )
  where
    reopen :
        (d : Circuit) (t : ℕ)
        → d.state ≡ open_
        → d.opened_at + cfg.cooldown ≤ t
        → let r = allow cfg t d in
          (r.0 ≡ true)
          × (mark_success r.1 ≡ new)
          × ((u : ℕ)
              → ((mark_failure cfg u r.1).state ≡ open_) × ((mark_failure cfg u r.1).opened_at ≡ u))
    reopen d t s l = unfold allow mark_success mark_failure new in ground arith
