-- ===== src/Scheduler/Pending.antt =====
-- The due tasks by their identifiers: proofs over the query of `get_due_tasks`.
use text.Mathlib.TextPositions.{eq_refl}
use project_os_core.Base.{
  ℕ, String, ◌≡◌, refl, ap, ◌∙◌, true, ◌||◌, inl, inr, List, [], ◌∷◌, map, filter, All, All-imp,
  arith, ◌==◌, Bool-cases,
}
use project_os_core.Base.Text.{is_member}
use project_os_core.Base.Sort.{sort_by, insert_sorted}
use project_os_core.Scheduler.{ScheduledTask}
use project_os_core.Scheduler.Operations.{task_key, is_due, earlier, due_at}

module _ (seen : ℕ) where
  is_member-insert :
      (x : String) (t : ScheduledTask) (ts : List ScheduledTask)
      → is_member x (map task_key (insert_sorted earlier t ts))
        ≡ is_member x (map task_key (t ∷ ts))
  unfolding is_member insert_sorted
  is_member-insert x t [] = refl
  is_member-insert x t (u ∷ ts) = ground (arith, is_member-insert x t ts)

  pub is_member-sort :
      (x : String) (ts : List ScheduledTask)
      → is_member x (map task_key (sort_by earlier ts)) ≡ is_member x (map task_key ts)
  unfolding is_member sort_by
  is_member-sort x [] = refl
  is_member-sort x (t ∷ ts) =
      is_member-insert x t (sort_by earlier ts)
      ∙ ap (λ b. x == t.task_id || b) (is_member-sort x ts)

  is_member-filter :
      (x : String) (u : ScheduledTask) (ts : List ScheduledTask)
      → is_member x (map task_key (filter (is_due seen) ts)) ≡ true
      → is_member x (map task_key (filter (is_due seen) (u ∷ ts))) ≡ true
  unfolding is_member
  is_member-filter x u ts h = elim (Bool-cases (is_due seen u)) [
    | inl due ↦ ground arith
    | inr idle ↦ ground arith
  ]

  pub due_are_pending :
      (ts : List ScheduledTask)
      → All
          (λ t.
            is_due seen t ≡ true
            → is_member t.task_id (map task_key (filter (is_due seen) ts)) ≡ true)
          ts
  unfolding is_member
  due_are_pending [] = tt
  due_are_pending (t ∷ ts) = (
    λ due. ground (arith, eq_refl t.task_id),
    All-imp (λ u h due. is_member-filter u.task_id t ts (h due)) ts (due_are_pending ts),
  )

  -- A row that is due is among the due tasks.
  pub due_at-pending :
      (ts : List ScheduledTask)
      → All
          (λ t. is_due seen t ≡ true → is_member t.task_id (map task_key (due_at seen ts)) ≡ true)
          ts
  unfolding due_at
  due_at-pending ts =
      All-imp (λ t h due. is_member-sort t.task_id (filter (is_due seen) ts) ∙ h due) ts
        (due_are_pending ts)
