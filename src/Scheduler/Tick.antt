-- ===== src/Scheduler/Tick.antt =====
-- `tick` runs every due task once and leaves none of them due: proofs over Operations.
use project_os_core.Base.{
  ℕ, suc, ◌+◌, ◌≤◌, ◌<◌, String, ◌≡◌, refl, ap, ◌∙◌, Option, none, some, arith,
}
use project_os_core.Base.Dict.{Dict}
use project_os_core.Base.Table.{fetchone, update_where, fetchone-key}
use project_os_core.Base.Result.{ok}
use project_os_core.World.{Outside, Value, append}
use project_os_core.Scheduler.{ScheduledTask, Scheduler}
use project_os_core.Scheduler.NextRun.{compute_next_run-lt, IsWellTimed, compute_next_run_total}
use project_os_core.Scheduler.Operations.{
  task_key, get_task, executed, write_executed, mark_task_executed,
}
use project_os_core.Scheduler.Ticks.{Outcome, TickResult, run_failed, run_task, returns, raises}

-- What `mark_task_executed` leaves: the rows of one task are executed and next run after a later
-- reading, and the clock has gone on.
pub record IsMarked (o : Outside) (id : String) (s s' : Scheduler) : Type 0 where
  pub now : ℕ
  pub status : String
  pub error : Option String
  pub next : ℕ
  pub rows : s'.tasks ≡ update_where task_key id (executed now status error next) s.tasks
  pub at : ℕ
  pub after : s.context.readings ≤ at
  pub later : o.wall (suc at) < next
  pub clock : s'.context.readings ≡ at + 3

module _ (o : Outside) (id status : String) (error : Option String) (s : Scheduler)
    (t : ScheduledTask) where
  -- A well-timed task that is in the table is marked with no exception.
  pub mark_ok :
      fetchone task_key id s.tasks ≡ some t
      → IsWellTimed t
      → (s' : Scheduler) × (mark_task_executed o id status error s ≡ (ok tt, s'))
        × IsMarked o id s s'
  unfolding mark_task_executed get_task
  mark_ok found timed =
      let reading = o.wall (suc s.context.readings) in
      let (next, computed) = compute_next_run_total reading t timed in
      let same_id = fetchone-key task_key id s.tasks t found in
      (
        (write_executed o t status error (ok next) s).1,
        rw (found, computed) (unfold write_executed in refl),
        record {
          now = o.wall s.context.readings;
          status = status;
          error = error;
          next = next;
          rows =
              unfold write_executed in
              ap
                (λ k.
                  update_where task_key k (executed (o.wall s.context.readings) status error next)
                    s.tasks)
                same_id;
          at = s.context.readings;
          after = omega arith;
          later = compute_next_run-lt reading t next computed;
          clock = unfold write_executed append in omega arith;
        },
      )

-- A callback leaves the table of the tasks alone, as the commands of `_execute_scheduler_task` in cli.py do, and
-- does not turn the clock back.
abbrev pub LeavesTasks :
    {R W : Type 0} → (String → Dict Value → W → Scheduler → Outcome R × W × Scheduler) → Type 0
LeavesTasks {W} executor =
    (command : String) (args : Dict Value) (w : W) (s : Scheduler)
    → ((executor command args w s).2.tasks ≡ s.tasks)
      × (s.context.readings ≤ (executor command args w s).2.context.readings)

-- Marked after a state with the same tasks and an earlier clock.
after_same :
    (o : Outside) (id : String) (s u s' : Scheduler)
    → u.tasks ≡ s.tasks
    → s.context.readings ≤ u.context.readings
    → IsMarked o id u s'
    → IsMarked o id s s'
after_same o id s u s' same earlier m = record {
  now = m.now;
  status = m.status;
  error = m.error;
  next = m.next;
  rows = m.rows ∙ ap (update_where task_key id (executed m.now m.status m.error m.next)) same;
  at = m.at;
  after = omega (arith, m.after);
  later = m.later;
  clock = m.clock;
}

module _ {R W : Type 0} (o : Outside)
    (executor : String → Dict Value → W → Scheduler → Outcome R × W × Scheduler)
    (leaves : LeavesTasks executor) where
  -- Whether the callback returns or raises, the task is marked and has its result.
  pub run_task_ok :
      (t row : ScheduledTask) (w : W) (s : Scheduler)
      → fetchone task_key t.task_id s.tasks ≡ some row
      → IsWellTimed row
      → (x : TickResult R) × (w' : W) × (s' : Scheduler) × ((run_task o executor t w s
            ≡ (ok x, w', s'))
          × (x.task_id ≡ t.task_id)
          × IsMarked o t.task_id s s')
  unfolding run_task run_failed
  run_task_ok t row w s found timed =
      let (same, earlier) = leaves t.command t.command_args w s in
      outcome (executor t.command t.command_args w s) refl (rw same found) same earlier
    where
      outcome :
          (y : Outcome R × W × Scheduler)
          → executor t.command t.command_args w s ≡ y
          → fetchone task_key t.task_id y.2.tasks ≡ some row
          → y.2.tasks ≡ s.tasks
          → s.context.readings ≤ y.2.context.readings
          → (x : TickResult R) × (w' : W) × (s' : Scheduler) × ((run_task o executor t w s
                ≡ (ok x, w', s'))
              × (x.task_id ≡ t.task_id)
              × IsMarked o t.task_id s s')
      outcome (returns r, v, u) e there same earlier =
          let (s', marked, m) = mark_ok o t.task_id "success" none u row there timed in
          (
            record { task_id = t.task_id; name = t.name; outcome = returns r },
            v,
            s',
            (rw (e, marked), refl, after_same o t.task_id s u s' same earlier m),
          )
      outcome (raises message, v, u) e there same earlier =
          let (s', marked, m) = mark_ok o t.task_id "failed" (some message) u row there timed in
          (
            record { task_id = t.task_id; name = t.name; outcome = raises message },
            v,
            s',
            (rw (e, marked), refl, after_same o t.task_id s u s' same earlier m),
          )
