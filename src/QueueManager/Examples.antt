-- ===== src/QueueManager/Examples.antt =====
-- A manager over an empty fallback queue, with Redis configured.
use mathlib.Core.List.{Perm}
use dubbing_pipeline.Base.{
  pos, ◌≡◌, ◌⊎◌, refl, Bool, true, false, not, [], ◌∷◌, ◌++◌, codes, text_eq, lower, strip,
  is_empty,
}
use dubbing_pipeline.Fallback.Scan.{queue_ids}
use dubbing_pipeline.Fallback.Examples.{fresh, store, at_noon, no_text}
use dubbing_pipeline.QueueManager.{
  auto, fallback, mode_cfg_of, Manager, redis_active, start, monitor, to_redis, to_local, route_job,
}
use dubbing_pipeline.QueueManager.Monitor.{monitor_lem, scan_missed}
use dubbing_pipeline.QueueManager.Routing.{route_job_lem}

abbrev manager : Manager
manager = record {
  mode_cfg = auto;
  has_redis = true;
  local = fresh;
  scanning = false;
  monitored = false;
  last_active = false;
}

forced_local : mode_cfg_of [] (codes " Local") (codes "redis") ≡ fallback
unfolding mode_cfg_of text_eq lower strip
forced_local = refl

redis_down : redis_active false manager ≡ false
unfolding redis_active
redis_down = refl

redis_up : redis_active true manager ≡ true
unfolding redis_active
redis_up = refl

monitor_example :
    (monitor ((true ∷ []) ++ false ∷ []) (start false manager)).scanning
    ≡ not (redis_active false manager)
monitor_example = monitor_lem manager false (true ∷ []) false refl refl redis_down

scan_missed_example : (monitor (false ∷ false ∷ []) (start true manager)).scanning ≡ false
scan_missed_example =
    scan_missed manager (false ∷ false ∷ []) refl refl refl redis_up (refl, (refl, tt))

j9_named : is_empty (strip (codes "j9")) ≡ false
unfolding strip
j9_named = refl

route_job_example :
    let r =
      route_job no_text false true
        (at_noon [])
        manager
        store
        (codes "j9")
        (codes "low")
        []
        (pos 100) in
    ((r.0 ≡ to_redis) × (redis_active false manager ≡ true) × (◌≡◌ {A = Bool} true true))
    ⊎ ((r.0 ≡ to_local true) × Perm (queue_ids r.1.local) (strip (codes "j9") ∷ queue_ids fresh))
route_job_example =
    route_job_lem no_text false true (at_noon []) manager store (codes "j9") (codes "low") []
      (pos 100) j9_named refl
