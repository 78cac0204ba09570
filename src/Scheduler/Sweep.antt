-- ===== src/Scheduler/Sweep.antt =====
-- The loop of `tick`: it runs every due task once and leaves none of them due.
use project_os_core.Base.{
  ℕ, suc, ◌≤◌, String, ◌≡◌, refl, true, false, inl, inr, Option, List, [], ◌∷◌, map, filter,
  filter-All, All, All-imp, All-map, arith, is_some, Option-cases,
}
use project_os_core.Base.Text.{is_member}
use project_os_core.Base.Dict.{Dict}
use project_os_core.Base.Sort.{sort_by, sort_by-All}
use project_os_core.Base.Table.{
  fetchone, All-update_where, All-update_where_into, fetchone-All, fetchone_present,
  is_some-fetchone-update_where,
}
use project_os_core.Base.Result.{Result, ok}
use project_os_core.World.{Outside, Value}
use project_os_core.Scheduler.{ScheduledTask, Scheduler}
use project_os_core.Scheduler.NextRun.{IsWellTimed}
use project_os_core.Scheduler.Operations.{
  task_key, is_due, earlier, due_at, get_due_tasks, executed,
}
use project_os_core.Scheduler.Ticks.{Outcome, TickResult, run_tasks, tick}
use project_os_core.Scheduler.Pending.{due_at-pending}
use project_os_core.Scheduler.Tick.{LeavesTasks, IsMarked, run_task_ok}

-- What the loop relies on before it runs the tasks of `ids`: `seen` is the reading that chose them.
record IsReady (o : Outside) (seen : ℕ) (ids : List String) (s : Scheduler) : Type 0 where
  timed : All IsWellTimed s.tasks
  present : All (λ id. is_some (fetchone task_key id s.tasks) ≡ true) ids
  pending : All (λ t. is_due seen t ≡ true → is_member t.task_id ids ≡ true) s.tasks
  passed : (n : ℕ) → s.context.readings ≤ n → seen ≤ o.wall n

executed-IsWellTimed :
    (now : ℕ) (status : String) (error : Option String) (next : ℕ) (t : ScheduledTask)
    → IsWellTimed t
    → IsWellTimed (executed now status error next t)
executed-IsWellTimed now status error next t w = record {
  hour_in_day = w.hour_in_day;
  minute_in_hour = w.minute_in_hour;
}

module _ (o : Outside) (seen : ℕ) (id : String) (ids : List String) {s s' : Scheduler} where
  IsMarked-IsReady : IsReady o seen (id ∷ ids) s → IsMarked o id s s' → IsReady o seen ids s'
  unfolding is_member
  IsMarked-IsReady h m =
      let f = executed m.now m.status m.error m.next in
      record {
        timed = rw m.rows (
            All-update_where task_key IsWellTimed id f s.tasks
              (executed-IsWellTimed m.now m.status m.error m.next) h.timed);
        present = rw m.rows (
            All-imp (λ j. is_some-fetchone-update_where task_key id j f s.tasks (λ r. refl)) ids
              h.present.1);
        pending = rw m.rows (
            All-update_where_into task_key
              (λ t. is_due seen t ≡ true → is_member t.task_id (id ∷ ids) ≡ true)
              (λ t. is_due seen t ≡ true → is_member t.task_id ids ≡ true) id f s.tasks
              (λ t hit before due. ground (arith, h.passed (suc m.at), m.after, m.later))
              (λ t miss before due. ground (arith, before due)) h.pending);
        passed = λ n reached. h.passed n (omega (arith, m.clock, m.after));
      }

module _ {R W : Type 0} (o : Outside)
    (executor : String → Dict Value → W → Scheduler → Outcome R × W × Scheduler) (seen : ℕ) where
  pub Swept : List ScheduledTask → Result (List (TickResult R)) × W × Scheduler → Type 0
  Swept ts ran =
      (rs : List (TickResult R)) × (w' : W) × (s' : Scheduler) × (ran ≡ (ok rs, w', s'))
      × (map (λ r. r.task_id) rs ≡ map task_key ts)
      × All (λ t. is_due seen t ≡ false) s'.tasks

  not_pending :
      (t : ScheduledTask)
      → (is_due seen t ≡ true → is_member t.task_id [] ≡ true)
      → is_due seen t ≡ false
  unfolding is_member
  not_pending t h = ground (arith, h)

  run_tasks-sweeps :
      LeavesTasks executor
      → (ts : List ScheduledTask) (w : W) (s : Scheduler) → IsReady o seen (map task_key ts) s
      → Swept ts (run_tasks o executor ts w s)
  unfolding run_tasks Swept
  run_tasks-sweeps leaves [] w s h = ([], w, s, refl, refl, All-imp not_pending s.tasks h.pending)
  run_tasks-sweeps leaves (t ∷ ts) w s h =
      elim (Option-cases (fetchone task_key t.task_id s.tasks)) [
        | inl missing ↦ absurd (ground (arith, h.present.0))
        | inr (row, found) ↦
            let timed = fetchone-All task_key IsWellTimed t.task_id s.tasks h.timed found in
            let (x, w', s', (ran, same_id, marked)) =
              run_task_ok o executor leaves t row w s found timed in
            let (rs, w_end, s_end, out, ids, swept) =
              run_tasks-sweeps leaves ts w' s'
                (IsMarked-IsReady o seen t.task_id (map task_key ts) h marked) in
            (x ∷ rs, w_end, s_end, rw (ran, out), cc, swept)
      ]

-- With well-timed tasks, a clock that does not go back and a callback that leaves the tasks alone, `tick`
-- raises nothing, whether the callback returns or raises, has one result for each due task, in their
-- order, and no task is due any more at the time at which it looked.
pub tick-sweeps :
    {R W : Type 0} (o : Outside)
    (executor : String → Dict Value → W → Scheduler → Outcome R × W × Scheduler) (w : W)
    (s : Scheduler)
    → LeavesTasks executor
    → ((m n : ℕ) → m ≤ n → o.wall m ≤ o.wall n)
    → All IsWellTimed s.tasks
    → Swept o executor (o.wall s.context.readings) (get_due_tasks o s).0 (tick o executor w s)
unfolding tick get_due_tasks due_at
tick-sweeps o executor w s leaves monotone timed =
    let seen = o.wall s.context.readings in
    run_tasks-sweeps o executor seen leaves (due_at seen s.tasks) w (get_due_tasks o s).1 (record {
      timed = timed;
      present =
          All-map (λ id. is_some (fetchone task_key id s.tasks) ≡ true) task_key
            (sort_by earlier (filter (is_due seen) s.tasks))
            (sort_by-All earlier (λ t. is_some (fetchone task_key t.task_id s.tasks) ≡ true)
              (filter (is_due seen) s.tasks)
              (filter-All (λ t. is_some (fetchone task_key t.task_id s.tasks) ≡ true) (is_due seen)
                s.tasks (fetchone_present task_key s.tasks)));
      pending = due_at-pending seen s.tasks;
      passed = λ n reached. monotone s.context.readings n (omega arith);
    })
