-- ===== src/Tests/SchedulerRuns.antt =====
-- The scheduler on concrete inputs.
use project_os_core.Base.{
  ◌≡◌, refl, ◌<◌, ◌≤◌, ◌%◌, ◌+◌, ◌*◌, ℕ, true, false, none, some, [], ◌∷◌, All, arith, String, map,
  filter, ◌==◌, if◌then◌else◌,
}
use project_os_core.Base.Dict.{Dict}
use project_os_core.Base.Sort.{sort_by}
use project_os_core.Base.Result.{ok}
use project_os_core.World.{Value}
use project_os_core.Scheduler.{
  ScheduledTask, Scheduler, compute_next_run, replace_time, day, hour, second,
}
use project_os_core.Scheduler.NextRun.{IsWellTimed, compute_next_run-daily}
use project_os_core.Scheduler.Operations.{get_due_tasks, set_task_enabled}
use project_os_core.Scheduler.Ticks.{tick, Outcome, returns, raises}
use project_os_core.Base.Table.{fetchone}
use project_os_core.Scheduler.Operations.{task_name}
use project_os_core.Scheduler.Toggle.{is_other, set_task_enabled-unlists}
use project_os_core.Scheduler.Sweep.{Swept, tick-sweeps}
use project_os_core.Tests.Samples.{outside, context}

abbrev audit : ScheduledTask
audit = record {
  task_id = "sched_1";
  name = "daily_audit";
  schedule_kind = "daily_at";
  interval_seconds = none;
  daily_at_hour = some 6;
  daily_at_minute = some 30;
  command = "daily_audit";
  command_args = [];
  enabled = true;
  last_run_at = none;
  next_run_at = some 23_400_000_000;
  last_status = none;
  last_error = none;
  metadata = [];
  created_at = 0;
  updated_at = 0;
}

abbrev health : ScheduledTask
health = record audit {
  task_id = "sched_2";
  name = "health_check";
  schedule_kind = "interval";
  interval_seconds = some 3600;
  command = "health_check";
  next_run_at = some 7;
}

abbrev service : Scheduler
service = record { context = context; tasks = audit ∷ health ∷ [] }

-- at eight in the morning the next half past six is tomorrow's
audit_next : compute_next_run 28_800_000_000 audit ≡ ok 109_800_000_000
unfolding compute_next_run replace_time
audit_next = refl

due_order :
    map (λ t. t.name) (get_due_tasks outside service).0 ≡ "health_check" ∷ "daily_audit" ∷ []
unfolding get_due_tasks sort_by
due_order = refl

compute_next_run-daily_example :
    (at : ℕ) × (compute_next_run 28_800_000_000 audit ≡ ok at)
    × (28_800_000_000 < at)
    × (at ≤ 28_800_000_000 + day)
    × (at % day ≡ 6 * hour + 30 * (60 * second))
compute_next_run-daily_example =
    compute_next_run-daily 28_800_000_000 6 30 audit refl refl refl (omega arith) (omega arith)

-- It counts its calls and reads the clock; the audit fails, everything else returns the count.
abbrev callback : String → Dict Value → ℕ → Scheduler → Outcome ℕ × ℕ × Scheduler
callback command args calls s = (
  if command == "daily_audit" then raises "no budget" else returns calls,
  calls + 1,
  record s { context = record s.context { readings = s.context.readings + 1 } },
)

service_timed : All IsWellTimed service.tasks
service_timed = omega arith

tick-sweeps_example :
    Swept outside callback
      (outside.wall 0)
      (get_due_tasks outside service).0
      (tick outside callback 0 service)
tick-sweeps_example =
    tick-sweeps outside callback 0 service (λ command args calls s. (refl, omega arith))
      (λ m n h. omega arith) service_timed

audit_named : fetchone task_name "daily_audit" service.tasks ≡ some audit
unfolding fetchone
audit_named = refl

set_task_enabled-unlists_example :
    (get_due_tasks outside
      (record (set_task_enabled outside "daily_audit" false service).1 { context = context })).0
    ≡ filter (is_other "sched_1") (get_due_tasks outside service).0
set_task_enabled-unlists_example =
    set_task_enabled-unlists outside "daily_audit" service audit context audit_named
