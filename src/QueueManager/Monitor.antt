-- ===== src/QueueManager/Monitor.antt =====
-- When the fallback queue scans, by the monitor of src/dubbing_pipeline/queue/manager.py.
use dubbing_pipeline.Base.{
  ◌≡◌, refl, ap, ◌∙◌, arith, Bool, true, false, not, List, [], ◌∷◌, ◌++◌, All,
}
use dubbing_pipeline.QueueManager.{
  auto, Manager, redis_active, seen_active, start, monitor_round, monitor,
}

-- The fallback queue scans exactly while the monitor thinks that Redis is down.
abbrev InStep : Manager → Type 0
InStep m = m.scanning ≡ not m.last_active

round-InStep : (ok : Bool) (m : Manager) → InStep m → InStep (monitor_round ok m)
unfolding monitor_round
round-InStep ok m h = ground (arith, h)

round_sees :
    (ok : Bool) (m : Manager)
    → m.mode_cfg ≡ auto
    → let t = monitor_round ok m in
      (t.last_active ≡ redis_active ok m) × (t.mode_cfg ≡ auto) × (t.has_redis ≡ m.has_redis)
unfolding monitor_round seen_active redis_active
round_sees ok m h = ground (arith, h)

monitor-InStep : (oks : List Bool) (m : Manager) → InStep m → InStep (monitor oks m)
unfolding monitor
monitor-InStep [] m h = h
monitor-InStep (ok ∷ oks) m h = monitor-InStep oks (monitor_round ok m) (round-InStep ok m h)

monitor_sees :
    (oks : List Bool) (ok : Bool) (m : Manager)
    → m.mode_cfg ≡ auto
    → (monitor (oks ++ ok ∷ []) m).last_active ≡ redis_active ok m
unfolding monitor redis_active
monitor_sees [] ok m h = (round_sees ok m h).0
monitor_sees (o ∷ oks) ok m h =
    let (_, a, r) = round_sees o m h in
    monitor_sees oks ok (monitor_round o m) a ∙ ground (arith, a, r, h)

-- In the mode "auto", a manager that is not running and starts while Redis is not in use scans
-- with the fallback queue, after one round or more, exactly if Redis was not in use at the last
-- one.
pub monitor_lem :
    (m : Manager) (first : Bool) (oks : List Bool) (ok : Bool)
    → m.mode_cfg ≡ auto
    → m.monitored ≡ false
    → redis_active first m ≡ false
    → (monitor (oks ++ ok ∷ []) (start first m)).scanning ≡ not (redis_active ok m)
unfolding start redis_active
monitor_lem m first oks ok a n d =
    monitor-InStep (oks ++ ok ∷ []) (start first m)
      (unfold start redis_active in ground (arith, n, d))
    ∙ ap not (monitor_sees oks ok (start first m) (ground (arith, a, n)) ∙ ground (arith, n))

down_stays :
    (oks : List Bool) (m : Manager)
    → m.mode_cfg ≡ auto
    → m.last_active ≡ false
    → All (λ ok. ok ≡ false) oks
    → monitor oks m ≡ m
unfolding monitor
down_stays [] m a l h = refl
down_stays (ok ∷ oks) m a l h = rw (stays ok m a l h.0) (down_stays oks m a l h.1)
  where
    stays :
        (ok : Bool) (m : Manager)
        → m.mode_cfg ≡ auto
        → m.last_active ≡ false
        → ok ≡ false
        → monitor_round ok m ≡ m
    stays ok m a l h = unfold monitor_round seen_active redis_active in ground (arith, a, l, h)

-- In the mode "auto", a manager that is not running and does not scan, that starts while Redis is
-- in use and finds it down at each round from the first on, never scans with the fallback queue.
pub scan_missed :
    (m : Manager) (oks : List Bool)
    → m.mode_cfg ≡ auto
    → m.monitored ≡ false
    → m.scanning ≡ false
    → redis_active true m ≡ true
    → All (λ ok. ok ≡ false) oks
    → (monitor oks (start true m)).scanning ≡ false
unfolding start
scan_missed m oks a n s r h =
    rw (down_stays oks (start true m) (ground (arith, a, n)) (ground (arith, n)) h)
      (ground (arith, n, s, r))
