-- ===== src/Runtime/AgentPool.antt =====
-- src/xenopus/runtime/agent_pool.py: admission, release and the watchdog. Times are numbers of
-- microseconds, and `uuid4` gives the run id that is an argument of `admit`.
pub mod Slots
pub mod Totals
pub mod Watchdog
mod Tests
use mathlib.Core.List.{foldr}
use xenopus.Prelude.{
  ℕ, ◌+◌, ◌-◌, Bool, true, false, ◌&&◌, ◌||◌, Option, none, some, List, [], ◌∷◌, ◌++◌, map, String,
  Result, ok, err, ltb, leb, length, if◌then◌else◌,
}
use xenopus.Prelude.Dict.{Dict, lookup, insert, remove}

-- `AgentHealth` of agent.py
pub data AgentHealth : Type 0 where
  healthy degraded stuck failed recovering : AgentHealth

pub record PoolLimits : Type 0 where
  pub max_concurrent : ℕ
  pub max_depth : ℕ
  pub max_children : ℕ
  pub max_total : ℕ
  pub heartbeat_timeout : ℕ

-- `PoolLimits.__post_init__` accepts these limits.
unfoldable pub accepts : PoolLimits → Bool
accepts l =
    leb 1 l.max_concurrent
    && leb 1 l.max_depth
    && leb 1 l.max_children
    && leb 1 l.max_total
    && leb 1 l.heartbeat_timeout

-- What a caller of `acquire` passes: the task, the profile's depth bound, its depth and its parent.
pub record Request : Type 0 where
  pub task_id : String
  pub profile_max_depth : ℕ
  pub depth : ℕ
  pub parent : Option String

pub record AgentRunHandle : Type 0 where
  pub run_id : String
  pub task_id : String
  pub depth : ℕ
  pub started_at : ℕ
  pub last_heartbeat : ℕ

-- `_RunEntry`
pub record RunEntry : Type 0 where
  pub handle : AgentRunHandle
  pub health : AgentHealth
  pub last_heartbeat_dt : ℕ

-- `slots` is the value of the semaphore.
pub record AgentPool : Type 0 where
  pub limits : PoolLimits
  pub slots : ℕ
  pub live : Dict RunEntry
  pub total_spawned : ℕ
  pub children_by_parent : Dict ℕ

unfoldable pub new : PoolLimits → AgentPool
new limits = record {
  limits = limits;
  slots = limits.max_concurrent;
  live = [];
  total_spawned = 0;
  children_by_parent = [];
}

abbrev pub live_count : AgentPool → ℕ
live_count pool = length pool.live

pub data AdmissionError : Type 0 where
  too_deep children_exhausted total_exhausted : AdmissionError

abbrev pub get_or_zero : Option ℕ → ℕ
get_or_zero none = 0
get_or_zero (some n) = n

abbrev child_budget_spent : Option String → AgentPool → Bool
child_budget_spent none pool = false
child_budget_spent (some parent) pool =
    leb pool.limits.max_children (get_or_zero (lookup parent pool.children_by_parent))

-- `acquire` up to its `await`: the checks against the limits.
unfoldable pub check : Request → AgentPool → Result AdmissionError (Unit {0})
unfolding lookup
check request pool =
    if ltb pool.limits.max_depth request.depth || ltb request.profile_max_depth request.depth
    then err too_deep
    else if child_budget_spent request.parent pool
    then err children_exhausted
    else if leb pool.limits.max_total pool.total_spawned
    then err total_exhausted
    else ok tt

abbrev count_child : Option String → Dict ℕ → Dict ℕ
count_child none d = d
count_child (some parent) d = insert parent (get_or_zero (lookup parent d) + 1) d

-- The `await` returns: a slot of the semaphore has been taken.
unfoldable pub take_slot : AgentPool → AgentPool
take_slot pool = record pool { slots = pool.slots - 1 }

-- A slot that was taken goes back to the semaphore.
unfoldable pub give_slot : AgentPool → AgentPool
give_slot pool = record pool { slots = pool.slots + 1 }

-- `acquire` behind its `await`
unfoldable pub register : String → ℕ → Request → AgentPool → AgentPool
unfolding insert lookup
register run_id now request pool =
    let handle : AgentRunHandle = record {
      run_id = run_id;
      task_id = request.task_id;
      depth = request.depth;
      started_at = now;
      last_heartbeat = now;
    } in
    record pool {
      live =
          insert run_id (record { handle = handle; health = healthy; last_heartbeat_dt = now })
            pool.live;
      total_spawned = pool.total_spawned + 1;
      children_by_parent = count_child request.parent pool.children_by_parent;
    }

-- The `await` that returns at once, and what follows it
unfoldable pub admit : String → ℕ → Request → AgentPool → AgentPool
unfolding take_slot register
admit run_id now request pool = register run_id now request (take_slot pool)

unfoldable pub release : String → AgentPool → AgentPool
unfolding lookup remove give_slot
release run_id pool = elim (lookup run_id pool.live) [
  | none ↦ pool
  | some entry ↦ give_slot (record pool { live = remove run_id pool.live })
]

abbrev revived : AgentHealth → AgentHealth
revived stuck = recovering
revived h = h

unfoldable pub beat : ℕ → RunEntry → RunEntry
beat now entry = record {
  handle = record entry.handle { last_heartbeat = now };
  health = revived entry.health;
  last_heartbeat_dt = now;
}

unfoldable pub heartbeat : String → ℕ → AgentPool → AgentPool
unfolding lookup insert beat
heartbeat run_id now pool = elim (lookup run_id pool.live) [
  | none ↦ pool
  | some entry ↦ record pool { live = insert run_id (beat now entry) pool.live }
]

abbrev is_healthy : AgentHealth → Bool
is_healthy healthy = true
is_healthy _ = false

unfoldable pub is_lapsed : ℕ → ℕ → RunEntry → Bool
is_lapsed threshold now entry =
    ltb threshold (now - entry.last_heartbeat_dt) && is_healthy entry.health

unfoldable pub mark_stuck : ℕ → ℕ → RunEntry → RunEntry
unfolding is_lapsed
mark_stuck threshold now entry =
    if is_lapsed threshold now entry then record entry { health = stuck } else entry

-- The loop of `detect_stuck` over the live runs.
unfoldable pub mark_all : ℕ → ℕ → Dict RunEntry → Dict RunEntry
unfolding mark_stuck
mark_all threshold now [] = []
mark_all threshold now ((k, entry) ∷ rest) =
    (k, mark_stuck threshold now entry) ∷ mark_all threshold now rest

unfoldable pub stuck_handles : ℕ → ℕ → Dict RunEntry → List AgentRunHandle
unfolding is_lapsed
stuck_handles threshold now [] = []
stuck_handles threshold now ((k, entry) ∷ rest) =
    if is_lapsed threshold now entry
    then entry.handle ∷ stuck_handles threshold now rest
    else stuck_handles threshold now rest

unfoldable pub detect_stuck : ℕ → AgentPool → List AgentRunHandle × AgentPool
unfolding mark_all stuck_handles
detect_stuck now pool = (
  stuck_handles pool.limits.heartbeat_timeout now pool.live,
  record pool { live = mark_all pool.limits.heartbeat_timeout now pool.live },
)

abbrev health_in : Option RunEntry → Option AgentHealth
health_in none = none
health_in (some entry) = some entry.health

unfoldable pub health_of : String → AgentPool → Option AgentHealth
unfolding lookup
health_of run_id pool = health_in (lookup run_id pool.live)
