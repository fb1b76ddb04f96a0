-- ===== src/QueueManager.antt =====
-- The queue that the service sees: `AutoQueueBackend` of src/dubbing_pipeline/queue/manager.py, which
-- stands before a queue in Redis and the fallback queue. The queue in Redis is outside: whether it is
-- healthy, and whether it takes a submission, are arguments.
pub mod Monitor
pub mod Routing
mod Examples
use dubbing_pipeline.Base.{
  ℕ, ℤ, Bool, true, false, not, ◌&&◌, ◌||◌, List, [], ◌∷◌, Text, codes, text_eq, lower, strip,
  or_else, is_empty, if◌then◌else◌,
}
use dubbing_pipeline.Jobs.Store.{JobStore}
use dubbing_pipeline.Fallback.{Fallback, Moment, submit_job, stop}

pub data QueueMode : Type 0 where
  auto redis fallback : QueueMode

abbrev known_mode : Text → QueueMode
known_mode cfg =
    if text_eq cfg (codes "redis")
    then redis
    else if text_eq cfg (codes "fallback")
    then fallback
    else auto

-- The mode from the override, the setting `queue_backend` and the setting `queue_mode`.
unfoldable pub mode_cfg_of : Text → Text → Text → QueueMode
mode_cfg_of mode_override queue_backend queue_mode =
    let cfg = lower (strip mode_override) in
    let qb = lower (strip queue_backend) in
    if not (is_empty cfg)
    then known_mode cfg
    else if text_eq qb (codes "local") || text_eq qb (codes "fallback")
    then fallback
    else if text_eq qb (codes "redis")
    then redis
    else known_mode (lower (strip (or_else queue_mode (codes "auto"))))

-- `monitored` and `scanning` say whether the tasks of the manager and of the fallback queue run;
-- `last_active` is the variable of the monitor.
pub record Manager : Type 0 where
  pub mode_cfg : QueueMode
  pub has_redis : Bool
  pub local : Fallback
  pub scanning : Bool
  pub monitored : Bool
  pub last_active : Bool

abbrev pub is_fallback : QueueMode → Bool
is_fallback fallback = true
is_fallback _ = false

-- `_redis_allowed`
abbrev pub redis_allowed : Manager → Bool
redis_allowed m = not (is_fallback m.mode_cfg) && m.has_redis

-- `_redis_active`
unfoldable pub redis_active : Bool → Manager → Bool
redis_active redis_ok m = redis_allowed m && redis_ok

abbrev pub stop_local : Manager → Manager
stop_local m = record m { scanning = false; local = stop m.local }

-- `start`
unfoldable pub start : Bool → Manager → Manager
start redis_ok m = if m.monitored then m else record m {
  scanning = m.scanning || not (redis_active redis_ok m);
  monitored = true;
  last_active = false;
}

-- `stop`
unfoldable pub stop_all : Manager → Manager
stop_all m = record (stop_local m) { monitored = false }

-- What the monitor takes for the health of Redis.
unfoldable pub seen_active : Bool → Manager → Bool
seen_active redis_ok m = elim m.mode_cfg [
  | auto ↦ redis_active redis_ok m
  | redis ↦ m.has_redis
  | fallback ↦ false
]

abbrev pub switch_to : Bool → Manager → Manager
switch_to true m = record (stop_local m) { last_active = true }
switch_to false m = record m { scanning = true; last_active = false }

abbrev pub differ : Bool → Bool → Bool
differ true b = not b
differ false b = b

-- One round of `_monitor_loop`.
unfoldable pub monitor_round : Bool → Manager → Manager
monitor_round redis_ok m =
    let active = seen_active redis_ok m in
    if differ active m.last_active then switch_to active m else m

unfoldable pub monitor : List Bool → Manager → Manager
monitor [] m = m
monitor (redis_ok ∷ later) m = monitor later (monitor_round redis_ok m)

-- Who has a submission: Redis, or the fallback queue with its answer.
pub data Route : Type 0 where
  to_redis : Route
  to_local : Bool → Route

abbrev pub local_route : Manager → Fallback × JobStore × Bool → Route × Manager × JobStore
local_route m (q, store, answered) = (to_local answered, record m { local = q }, store)

-- `submit_job`; `redis_takes` says whether Redis takes the job or raises.
unfoldable pub route_job :
    (ℕ → Text)
    → Bool
    → Bool
    → Moment
    → Manager
    → JobStore
    → Text
    → Text
    → Text
    → ℤ
    → Route × Manager × JobStore
route_job show_delay redis_ok redis_takes moment m store job_id mode device priority =
    if redis_active redis_ok m && redis_takes
    then (to_redis, m, store)
    else local_route m (submit_job show_delay moment m.local store job_id mode device priority)
