-- ===== src/Runtime/Killswitch/Tests.antt =====
-- A store with one live task, and the theorem at a trigger over it.
use xenopus.Prelude.{◌≡◌, refl, none, some, [], ◌∷◌, ◌++◌, map, String, ok, arith}
use xenopus.Prelude.Dict.{text_ne}
use xenopus.Persistence.Tasks.{TaskRecord, TaskState, running, failed}
use xenopus.Persistence.Tasks.Cancels.{NoneLive, cancellation}
use xenopus.Runtime.Killswitch.{KillSwitch, KillSwitchReport, shared, trigger, audit}
use xenopus.Runtime.Killswitch.Triggers.{trigger-NoneLive}

abbrev task : String → TaskState → TaskRecord
task id state = record {
  task_id = id;
  title = "t";
  goal_ref = none;
  plan_ref = none;
  state = state;
  correlation_id = "c";
  attempt = 1;
  max_attempts = 3;
  created_at = 0;
  updated_at = 0;
}

abbrev switch : KillSwitch
switch = record {
  store = record { rows = task "a" failed ∷ task "b" running ∷ []; journal = some [] };
  journal = shared;
}

trigger-NoneLive_example :
    (report : KillSwitchReport) × ((trigger "k" 9 "stop" switch).0 ≡ ok report)
    × NoneLive (trigger "k" 9 "stop" switch).1.store
    × ((trigger "k" 9 "stop" switch).1.store.journal
        ≡ some
            (([] ++ map cancellation report.cancelled) ++ audit "k" "stop" report.cancelled ∷ []))
trigger-NoneLive_example =
    trigger-NoneLive "k" 9 "stop" switch [] (omega arith) ((text_ne "b" "a" refl, tt), (tt, tt))
      (refl, (refl, tt)) refl refl refl
