-- ===== src/Scheduler/Ensure.antt =====
-- The default tasks of a new service: proofs over `ensure_default_tasks`.
use project_os_core.Base.{◌<◌, String, ◌≡◌, true, List, ◌++◌, All, is_some}
use project_os_core.Base.Table.{fetchone}
use project_os_core.Scheduler.{ScheduledTask, Scheduler, or_zero}
use project_os_core.Scheduler.NextRun.{IsWellTimed}
use project_os_core.Scheduler.Defaults.{TaskDef}
use project_os_core.Scheduler.Operations.{task_name}

abbrev IsWellDefined : TaskDef → Type 0
IsWellDefined d = (or_zero d.daily_at_hour < 24) × (or_zero d.daily_at_minute < 60)

abbrev pub Present : List ScheduledTask → String → Type 0
Present tasks name = is_some (fetchone task_name name tasks) ≡ true

-- `s'` has the rows of `s`, and after them well-timed new ones.
pub record Extends (s s' : Scheduler) : Type 0 where
  pub added : List ScheduledTask
  pub rows : s'.tasks ≡ s.tasks ++ added
  pub timed : All IsWellTimed added
