-- ===== src/Runtime/AgentPool/Tests.antt =====
-- Runs of the pool, and the theorems at small inputs.
use xenopus.Prelude.{◌+◌, ◌≤◌, ◌≡◌, refl, none, [], ◌∷◌, arith}
use xenopus.Prelude.Dict.{lookup}
use xenopus.Runtime.AgentPool.{
  PoolLimits, AgentPool, RunEntry, Request, healthy, live_count, new, check, admit, register,
  release, take_slot, heartbeat, detect_stuck, health_of,
}
use xenopus.Runtime.AgentPool.Slots.{
  Reach, here, next, enter, wait, hand_over, resume, leave, start, live_count-le_max,
}
use xenopus.Runtime.AgentPool.Watchdog.{perform_all, perform}

abbrev limits : PoolLimits
limits = record {
  max_concurrent = 1;
  max_depth = 2;
  max_children = 4;
  max_total = 2;
  heartbeat_timeout = 30;
}

abbrev request : Request
request = record { task_id = "t"; profile_max_depth = 2; depth = 0; parent = none }

program : Unit {0}
unfolding new check admit release heartbeat detect_stuck health_of perform_all perform lookup
program = tt

abbrev one_run : AgentPool
one_run = admit "a" 100 request (new limits)

-- A second call waits, the first run is released, a third call arrives while the slot is on its way,
-- and the second goes on.
abbrev handed_over : AgentPool
handed_over = take_slot (release "a" one_run)

abbrev second_run : AgentPool
second_run = register "b" 200 request handed_over

one_way : Reach (start limits) (record { pool = second_run; waiting = request ∷ []; granted = [] })
unfolding program
one_way =
    next
      (next
        (next
          (next
            (next (next here (enter (new limits) [] [] request "a" 100 refl (omega arith) refl))
              (wait one_run [] [] request refl))
            (leave one_run (request ∷ []) [] "a"))
          (hand_over (release "a" one_run) [] [] [] request (omega arith)))
        (wait handed_over [] (request ∷ []) request refl))
      (resume handed_over (request ∷ []) [] [] request "b" 200 refl)

live_count-le_max_example :
    (live_count second_run ≤ 1) × (live_count second_run + 0 + second_run.slots ≡ 1)
live_count-le_max_example = live_count-le_max limits one_way

abbrev run_a : RunEntry
run_a = record {
  handle = record {
    run_id = "a";
    task_id = "t";
    depth = 0;
    started_at = 100;
    last_heartbeat = 100;
  };
  health = healthy;
  last_heartbeat_dt = 100;
}

abbrev revived_pool : AgentPool
revived_pool = heartbeat "a" 200 (detect_stuck 131 one_run).1
