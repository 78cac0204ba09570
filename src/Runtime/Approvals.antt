-- ===== src/Runtime/Approvals.antt =====
-- The approvals of runtime/store.py: one that is asked for is listed until it is resolved.
use project_os_core.Base.{
  ℕ, String, ◌≡◌, inl, inr, true, false, Option, List, [], ◌∷◌, All, arith, filter, Bool-cases,
  ◌==◌,
}
use project_os_core.Base.Dict.{Dict}
use project_os_core.Base.Sort.{sort_by-All}
use project_os_core.Base.Table.{update_where, All-update_where_into}
use project_os_core.World.{Outside, Value, append}
use project_os_core.Runtime.{ApprovalStatus, ApprovalRecord, RuntimeStore, approval_key}
use project_os_core.Runtime.Store.{
  is_pending, is_listed, created_later, settle, list_pending_approvals, resolve_approval,
}

-- What the filter keeps, of rows that it keeps only outside the identifier.
filtered_out :
    (id : String) (wanted : Option String) (rows : List ApprovalRecord)
    → All (λ a. (a.approval_id == id) ≡ true → is_pending a.status ≡ false) rows
    → All (λ a. (a.approval_id == id) ≡ false) (filter (is_listed wanted) rows)
filtered_out id wanted [] h = tt
filtered_out id wanted (a ∷ rows) h =
    let rest = filtered_out id wanted rows h.1 in
    elim (Bool-cases (is_listed wanted a)) [
      | inl listed ↦ rw listed (ground (arith, h.0, listed), rest)
      | inr unlisted ↦ rw unlisted rest
    ]

settled_rows :
    (id : String) (status : ApprovalStatus) (metadata : Dict Value) (now : ℕ)
    (rows : List ApprovalRecord)
    → is_pending status ≡ false
    → All
        (λ a. (a.approval_id == id) ≡ true → is_pending a.status ≡ false)
        (update_where approval_key id (settle status metadata now) rows)
settled_rows id status metadata now rows over =
    All-update_where_into approval_key (λ a. Unit {0})
      (λ a. (a.approval_id == id) ≡ true → is_pending a.status ≡ false) id
      (settle status metadata now) rows (λ a same u named. over)
      (λ a other u named. absurd (ground (arith, other, named))) (anything rows)
  where
    anything : (rows : List ApprovalRecord) → All (λ a. Unit {0}) rows
    anything [] = tt
    anything (a ∷ rows) = (tt, anything rows)

module _ (o : Outside) where
  -- An approval that is resolved, with any status but pending, is on no list of pending approvals.
  pub resolve_approval-unlisted :
      (id : String) (status : ApprovalStatus) (metadata : Dict Value) (wanted : Option String)
      (r : RuntimeStore)
      → is_pending status ≡ false
      → All
          (λ a. (a.approval_id == id) ≡ false)
          (list_pending_approvals wanted (resolve_approval o id status metadata r))
  unfolding list_pending_approvals resolve_approval append
  resolve_approval-unlisted id status metadata wanted r over =
      sort_by-All created_later (λ a. (a.approval_id == id) ≡ false) _
        (filtered_out id wanted _
          (settled_rows id status metadata (o.wall r.context.readings) r.approvals over))
