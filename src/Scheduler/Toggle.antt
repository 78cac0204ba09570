-- ===== src/Scheduler/Toggle.antt =====
-- What disabling a task by its name does to the tasks that `tick` runs.
use project_os_core.Base.{
  ℕ, String, ◌≡◌, refl, sym, ◌∙◌, ap, ◌==◌, ◌⊎◌, inl, inr, not, Bool, true, false, some, List, [],
  ◌∷◌, filter, arith, Bool-cases,
}
use project_os_core.Base.Sort.{sort_by, filter-sort_by}
use project_os_core.Base.Table.{fetchone, update_where}
use project_os_core.World.{Outside, Context, append}
use project_os_core.Scheduler.{ScheduledTask, Scheduler}
use project_os_core.Scheduler.Operations.{
  task_key, task_name, is_due, earlier, due_at, get_due_tasks, write_enabled, set_task_enabled,
}

earlier_total : (a b : ScheduledTask) → (earlier a b ≡ true) ⊎ (earlier b a ≡ true)
earlier_total a b = grind arith

earlier_trans :
    (a b c : ScheduledTask) → earlier a b ≡ true → earlier b c ≡ true → earlier a c ≡ true
earlier_trans a b c h k = ground arith

-- A row of another identifier.
abbrev pub is_other : String → ScheduledTask → Bool
is_other id r = not (r.task_id == id)

filter-disabled :
    (now : ℕ) (id : String) (f : ScheduledTask → ScheduledTask)
    → ((r : ScheduledTask) → is_due now (f r) ≡ false)
    → (rows : List ScheduledTask)
    → filter (is_due now) (update_where task_key id f rows)
      ≡ filter (is_other id) (filter (is_due now) rows)
unfolding update_where
filter-disabled now id f off [] = refl
filter-disabled now id f off (r ∷ rows) =
    let rest = filter-disabled now id f off rows in
    elim (Bool-cases (r.task_id == id)) [
      | inl named ↦
          rw (named, off r)
            (elim (Bool-cases (is_due now r)) [
              | inl due ↦ rw (due, named) rest
              | inr idle ↦ rw idle rest
            ])
      | inr other ↦ rw other (elim (Bool-cases (is_due now r)) [
        | inl due ↦ rw (due, other) (ap (λ xs. r ∷ xs) rest)
        | inr idle ↦ rw idle rest
      ])
    ]

-- Once the first task of a name is disabled, the tasks that are due at any time are those that would be due
-- otherwise, in the same order, but for the rows with its identifier.
pub set_task_enabled-unlists :
    (o : Outside) (name : String) (s : Scheduler) (t : ScheduledTask) (c : Context)
    → fetchone task_name name s.tasks ≡ some t
    → (get_due_tasks o (record (set_task_enabled o name false s).1 { context = c })).0
      ≡ filter (is_other t.task_id) (get_due_tasks o (record s { context = c })).0
unfolding set_task_enabled write_enabled append get_due_tasks due_at
set_task_enabled-unlists o name s t c found =
    let now = o.wall c.readings in
    rw found (
      ap (sort_by earlier) (filter-disabled now t.task_id _ (λ r. refl) s.tasks)
      ∙ sym (
          filter-sort_by earlier earlier_total earlier_trans (is_other t.task_id)
            (filter (is_due now) s.tasks)))
