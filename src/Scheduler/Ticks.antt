-- ===== src/Scheduler/Ticks.antt =====
-- `tick` of SchedulerService, with its callback as a parameter.
use Prim.Native.String.{◌++◌ as concat}
use project_os_core.Base.{String, none, some, List, [], ◌∷◌}
use project_os_core.Base.Dict.{Dict}
use project_os_core.Base.Result.{
  Result, err, key_error, Error, value_error, permission_error, index_error, runtime_error,
  integrity_error, type_error, ok,
}
use project_os_core.World.{Outside, Value}
use project_os_core.Scheduler.{ScheduledTask, Scheduler}
use project_os_core.Scheduler.Operations.{mark_task_executed, get_due_tasks}

-- What the callback does with a command: it returns a value, or raises an exception with a text.
pub data Outcome (R : Type 0) : Type 0 where
  returns : R → Outcome R
  raises : String → Outcome R

pub record TickResult (R : Type 0) : Type 0 where
  pub task_id : String
  pub name : String
  pub outcome : Outcome R

-- str(exc); that of a KeyError is quoted
abbrev pub error_text : Error → String
error_text (key_error m) = concat "'" (concat m "'")
error_text (value_error m) = m
error_text (permission_error m) = m
error_text (index_error m) = m
error_text (runtime_error m) = m
error_text (integrity_error m) = m
error_text (type_error m) = m

-- The callback runs on the services: it may change a world of its own, W, and the scheduler's state.
module _ {R W : Type 0} (o : Outside)
    (executor : String → Dict Value → W → Scheduler → Outcome R × W × Scheduler) where
  abbrev result : ScheduledTask → Outcome R → TickResult R
  result t x = record { task_id = t.task_id; name = t.name; outcome = x }

  abbrev after_failed :
      ScheduledTask → String → Result (Unit {0}) × Scheduler → Result (TickResult R) × Scheduler
  after_failed t m (ok _, s) = (ok (result t (raises m)), s)
  after_failed t m (err e, s) = (err e, s)

  -- the `except` branch, for what the callback raises or `mark_task_executed` does
  unfoldable pub run_failed : ScheduledTask → String → Scheduler → Result (TickResult R) × Scheduler
  run_failed t m s = after_failed t m (mark_task_executed o t.task_id "failed" (some m) s)

  abbrev after_success :
      ScheduledTask → R → Result (Unit {0}) × Scheduler → Result (TickResult R) × Scheduler
  after_success t r (ok _, s) = (ok (result t (returns r)), s)
  after_success t r (err e, s) = run_failed t (error_text e) s

  abbrev with_world : W → Result (TickResult R) × Scheduler → Result (TickResult R) × W × Scheduler
  with_world w (x, s) = (x, w, s)

  abbrev run_outcome :
      ScheduledTask → Outcome R × W × Scheduler → Result (TickResult R) × W × Scheduler
  run_outcome t (returns r, w, s) =
      with_world w (after_success t r (mark_task_executed o t.task_id "success" none s))
  run_outcome t (raises m, w, s) = with_world w (run_failed t m s)

  unfoldable pub run_task : ScheduledTask → W → Scheduler → Result (TickResult R) × W × Scheduler
  run_task t w s = run_outcome t (executor t.command t.command_args w s)

  abbrev collect :
      Result (TickResult R)
      → W
      → Scheduler
      → Result (List (TickResult R)) × W × Scheduler
      → Result (List (TickResult R)) × W × Scheduler
  collect (err e) w s rest = (err e, w, s)
  collect (ok r) w s (ok rs, w', s') = (ok (r ∷ rs), w', s')
  collect (ok r) w s (err e, w', s') = (err e, w', s')

  -- an exception in the `except` branch ends the loop
  unfoldable pub run_tasks :
      List ScheduledTask → W → Scheduler → Result (List (TickResult R)) × W × Scheduler
  run_tasks [] w s = (ok [], w, s)
  run_tasks (t ∷ ts) w s =
      let ran = run_task t w s in collect ran.0 ran.1 ran.2 (run_tasks ts ran.1 ran.2)

  unfoldable pub tick : W → Scheduler → Result (List (TickResult R)) × W × Scheduler
  tick w s = let (due, s') = get_due_tasks o s in run_tasks due w s'
