-- ===== src/Scheduler/Operations.antt =====
-- The methods of SchedulerService.
use Prim.Native.String.{◌++◌ as concat}
use project_os_core.Base.{
  ℕ, suc, ◌+◌, String, Bool, ◌&&◌, true, false, Option, none, some, List, [], ◌∷◌, ◌++◌, filter,
  leb,
}
use project_os_core.Base.Text.{or_text}
use project_os_core.Base.Sort.{sort_by}
use project_os_core.Base.Table.{fetchone, update_where}
use project_os_core.Base.Result.{Result, err, key_error, ok, and_then}
use project_os_core.World.{Outside, text, number, flag, append}
use project_os_core.Scheduler.{ScheduledTask, Scheduler, or_zero, compute_next_run}
use project_os_core.Scheduler.Defaults.{TaskDef, MemoryConfig, GitHubConfig, default_tasks}

abbrev pub task_key : ScheduledTask → String
task_key t = t.task_id

abbrev pub task_name : ScheduledTask → String
task_name t = t.name

-- n more readings of the clock
abbrev pub read_clock : ℕ → Scheduler → Scheduler
read_clock n s = record s { context = record s.context { readings = s.context.readings + n } }

abbrev found_task : String → Option ScheduledTask → Result ScheduledTask
found_task id none = err (key_error (concat "Unknown scheduled task: " id))
found_task id (some t) = ok t

unfoldable pub get_task : String → Scheduler → Result ScheduledTask
get_task id s = found_task id (fetchone task_key id s.tasks)

-- WHERE enabled = 1 AND next_run_at IS NOT NULL AND next_run_at <= now
abbrev reached : ℕ → Option ℕ → Bool
reached now none = false
reached now (some at) = leb at now

abbrev pub is_due : ℕ → ScheduledTask → Bool
is_due now t = t.enabled && reached now t.next_run_at

-- ORDER BY next_run_at ASC
abbrev pub earlier : ScheduledTask → ScheduledTask → Bool
earlier a b = leb (or_zero a.next_run_at) (or_zero b.next_run_at)

unfoldable pub due_at : ℕ → List ScheduledTask → List ScheduledTask
due_at now tasks = sort_by earlier (filter (is_due now) tasks)

unfoldable pub get_due_tasks : Outside → Scheduler → List ScheduledTask × Scheduler
unfolding due_at
get_due_tasks o s = (due_at (o.wall s.context.readings) s.tasks, read_clock 1 s)

abbrev pub executed : ℕ → String → Option String → ℕ → ScheduledTask → ScheduledTask
executed now status error next t = record t {
  last_run_at = some now;
  last_status = some status;
  last_error = error;
  next_run_at = some next;
  updated_at = now;
}

-- the writes of mark_task_executed, once the task is read and its next run computed
unfoldable pub write_executed :
    Outside
    → ScheduledTask
    → String
    → Option String
    → Result ℕ
    → Scheduler
    → Result (Unit {0}) × Scheduler
write_executed o t status error (err e) s = (err e, read_clock 2 s)
write_executed o t status error (ok next) s =
    let now = o.wall s.context.readings in
    (
      ok tt,
      record s {
        context =
            append o "scheduled_task_executed" "scheduler"
              (("task_id", text t.task_id)
                ∷ ("name", text t.name)
                ∷ ("status", text status)
                ∷ ("next_run_at", number next)
                ∷ ("error", text (or_text error ""))
                ∷ [])
              (read_clock 2 s).context;
        tasks = update_where task_key t.task_id (executed now status error next) s.tasks;
      },
    )

-- the clock is read for `now`, and again for the next run
abbrev pub mark_found :
    Outside
    → Result ScheduledTask
    → String
    → Option String
    → Scheduler
    → Result (Unit {0}) × Scheduler
mark_found o (err e) status error s = (err e, s)
mark_found o (ok t) status error s =
    write_executed o t status error (compute_next_run (o.wall (suc s.context.readings)) t) s

unfoldable pub mark_task_executed :
    Outside → String → String → Option String → Scheduler → Result (Unit {0}) × Scheduler
mark_task_executed o id status error s = mark_found o (get_task id s) status error s

-- the UPDATE and the journal of _set_task_enabled
unfoldable pub write_enabled : Outside → Bool → ScheduledTask → ℕ → Option ℕ → Scheduler → Scheduler
write_enabled o enabled t now next s = record s {
  context =
      append o "scheduled_task_toggled" "scheduler"
        (("task_id", text t.task_id) ∷ ("name", text t.name) ∷ ("enabled", flag enabled) ∷ [])
        s.context;
  tasks =
      update_where task_key t.task_id
        (λ r. record r { enabled = enabled; next_run_at = next; updated_at = now }) s.tasks;
}

abbrev returned : ScheduledTask → Scheduler → Result ScheduledTask × Scheduler
returned t s = (get_task t.task_id s, s)

abbrev pub enable_at :
    Outside → ScheduledTask → Result ℕ → Scheduler → Result ScheduledTask × Scheduler
enable_at o t (err e) s = (err e, read_clock 2 s)
enable_at o t (ok next) s =
    returned t (write_enabled o true t (o.wall s.context.readings) (some next) (read_clock 2 s))

abbrev pub toggle_found :
    Outside → String → Bool → Option ScheduledTask → Scheduler → Result ScheduledTask × Scheduler
toggle_found o name enabled none s = (err (key_error (concat "Unknown scheduled task: " name)), s)
toggle_found o name true (some t) s =
    enable_at o t (compute_next_run (o.wall (suc s.context.readings)) t) s
toggle_found o name false (some t) s =
    returned t (write_enabled o false t (o.wall s.context.readings) t.next_run_at (read_clock 1 s))

unfoldable pub set_task_enabled :
    Outside → String → Bool → Scheduler → Result ScheduledTask × Scheduler
set_task_enabled o name enabled s = toggle_found o name enabled (fetchone task_name name s.tasks) s

-- the ScheduledTask that _ensure_default_tasks builds, and its next run
unfoldable pub task_of_def : String → ℕ → ℕ → Option ℕ → TaskDef → ScheduledTask
task_of_def id created updated next d = record {
  task_id = id;
  name = d.name;
  schedule_kind = d.schedule_kind;
  interval_seconds = d.interval_seconds;
  daily_at_hour = d.daily_at_hour;
  daily_at_minute = d.daily_at_minute;
  command = d.command;
  command_args = d.command_args;
  enabled = d.enabled;
  last_run_at = none;
  next_run_at = next;
  last_status = none;
  last_error = none;
  metadata = [];
  created_at = created;
  updated_at = updated;
}

-- `created_at` and `updated_at` read the clock before the next run does: the readings n, n + 1, n + 2
abbrev pub insert_default : Outside → TaskDef → Result ℕ → Scheduler → Result (Unit {0}) × Scheduler
insert_default o d (err e) s =
    let c = s.context in
    (
      err e,
      record s {
        context = record c { readings = c.readings + 3; identifiers = suc c.identifiers };
      },
    )
insert_default o d (ok next) s =
    let c = s.context in
    let id = o.fresh "sched_task" c.identifiers in
    let t = task_of_def id (o.wall c.readings) (o.wall (suc c.readings)) (some next) d in
    (
      ok tt,
      record s {
        context =
            append o "scheduled_task_created" "scheduler"
              (("task_id", text id) ∷ ("name", text d.name) ∷ ("next_run_at", number next) ∷ [])
              (record c { readings = c.readings + 3; identifiers = suc c.identifiers });
        tasks = s.tasks ++ t ∷ [];
      },
    )

abbrev pub ensure_one :
    Outside → TaskDef → Option ScheduledTask → Scheduler → Result (Unit {0}) × Scheduler
ensure_one o d (some existing) s = (ok tt, s)
ensure_one o d none s =
    let at = s.context.readings in
    insert_default o d (compute_next_run (o.wall (at + 2)) (task_of_def "" 0 0 none d)) s

unfoldable pub ensure_tasks : Outside → List TaskDef → Scheduler → Result (Unit {0}) × Scheduler
ensure_tasks o [] s = (ok tt, s)
ensure_tasks o (d ∷ ds) s =
    and_then (ensure_one o d (fetchone task_name d.name s.tasks) s) (λ _. ensure_tasks o ds)

unfoldable pub ensure_default_tasks :
    Outside → Option MemoryConfig → Option GitHubConfig → Scheduler → Result (Unit {0}) × Scheduler
unfolding default_tasks
ensure_default_tasks o m g s = ensure_tasks o (default_tasks m g) s
