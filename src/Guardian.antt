-- ===== src/Guardian.antt =====
-- The guards of execute_run in api_runs/service.py: the preflight of the repository, the recent approval of
-- the founder, and the guardian's check of the budget and of loops before an expensive call.
pub mod Verdicts
use Prim.Native.String.{◌++◌ as concat}
use project_os_core.Base.{
  ℕ, suc, ◌+◌, ◌-◌, ◌*◌, ◌%◌, String, Bool, true, false, ◌&&◌, ◌||◌, not, Option, none, some, List,
  [], ◌∷◌, length, filter, leb, ltb, eqb, ◌==◌, if◌then◌else◌, is_empty,
}
use project_os_core.Base.Text.{decimal}
use project_os_core.Base.Result.{Result, ok, err}
use project_os_core.Mission.{ApiRunMode, ApiRunStatus, mode_value, run_status_value}

-- the columns that the guardian reads of api_run_results and of api_run_requests
pub record ResultRow : Type 0 where
  pub estimated_cost_eur : ℕ
  pub status : ApiRunStatus
  pub created_at : ℕ

pub record RequestRow : Type 0 where
  pub branch_name : String
  pub mode : ApiRunMode
  pub created_at : ℕ

pub record RunTables : Type 0 where
  pub results : List ResultRow
  pub requests : List RequestRow

-- costs in millionths of a euro
pub record GuardPolicy : Type 0 where
  pub daily_budget_limit_eur : ℕ
  pub loop_detection_window_hours : ℕ
  pub loop_detection_threshold : ℕ
  pub founder_approval_grace_seconds : ℕ

-- what the guardian reads of a request; `guardian_override` is whether its metadata have True there
pub record GuardedRequest : Type 0 where
  pub branch_name : String
  pub mode : ApiRunMode
  pub guardian_override : Bool

abbrev pub hour : ℕ
hour = 3_600_000_000

abbrev pub day : ℕ
day = 24 * hour

-- created_at >= ? AND status != 'failed'
unfoldable pub is_spent : ℕ → ResultRow → Bool
unfolding run_status_value
is_spent start r = leb start r.created_at && not (run_status_value r.status == "failed")

abbrev pub sum_spent : List ResultRow → ℕ
sum_spent [] = 0
sum_spent (r ∷ rows) = r.estimated_cost_eur + sum_spent rows

-- COALESCE(SUM(estimated_cost_eur), 0.0)
unfoldable pub daily_spend : ℕ → RunTables → ℕ
unfolding is_spent
daily_spend now t = sum_spent (filter (is_spent (now - now % day)) t.results)

-- branch_name = ? AND mode = ? AND created_at >= ?
unfoldable pub is_repeat : GuardedRequest → ℕ → RequestRow → Bool
is_repeat q start r =
    r.branch_name == q.branch_name
    && mode_value r.mode == mode_value q.mode
    && leb start r.created_at

unfoldable pub loop_count : GuardPolicy → GuardedRequest → ℕ → RunTables → ℕ
unfolding is_repeat
loop_count p q now t =
    length (filter (is_repeat q (now - p.loop_detection_window_hours * hour)) t.requests)

module _ (format_cost : ℕ → String) where
  abbrev budget_reason : GuardPolicy → ℕ → ℕ → String
  budget_reason p spend estimated = concat "budget_exceeded:daily_spend=" (
      concat (format_cost spend) (
        concat "+estimated=" (
          concat (format_cost estimated)
            (concat ">limit=" (format_cost p.daily_budget_limit_eur)))))

  abbrev loop_reason : GuardPolicy → GuardedRequest → ℕ → String
  loop_reason p q count = concat "loop_detected:branch=" (
      concat q.branch_name (
        concat ",mode=" (
          concat (mode_value q.mode) (
            concat ",count=" (
              concat (decimal count)
                (concat ",window=" (concat (decimal p.loop_detection_window_hours) "h")))))))

  -- the body of the try: what the database answers, or an exception, which lets the run go on
  abbrev pub checked :
      GuardPolicy → GuardedRequest → ℕ → ℕ → ℕ → Result RunTables → Bool × Option String
  checked p q estimated now later (err e) = (true, none)
  checked p q estimated now later (ok t) =
      if ltb p.daily_budget_limit_eur (daily_spend now t + estimated)
      then (false, some (budget_reason p (daily_spend now t) estimated))
      else if leb p.loop_detection_threshold (loop_count p q later t)
      then (false, some (loop_reason p q (loop_count p q later t)))
      else (true, none)

  -- `now` and `later` are the two readings of the clock
  unfoldable pub guardian_pre_spend_check :
      GuardPolicy → GuardedRequest → ℕ → ℕ → ℕ → Result RunTables → Bool × Option String
  unfolding daily_spend loop_count decimal
  guardian_pre_spend_check p q estimated now later answer =
      if q.guardian_override then (true, none) else checked p q estimated now later answer

-- `decision` and `at` are the founder's decision on the contract and its time, if there is a contract
abbrev within_grace : ℕ → Option ℕ → ℕ → Bool
within_grace grace none now = false
within_grace grace (some at) now = leb at now && leb (now - at) (grace * 1_000_000)

abbrev is_go : Option String → Bool
is_go none = false
is_go (some d) = d == "go" || d == "go_avec_correction"

unfoldable pub has_recent_founder_approval : GuardPolicy → Option String → Option ℕ → ℕ → Bool
has_recent_founder_approval p decision at now =
    if not (is_go decision)
    then false
    else if eqb p.founder_approval_grace_seconds 0
    then false
    else within_grace p.founder_approval_grace_seconds at now

-- what git says of the repository, and the keys of the contract's metadata
pub record RepoState : Type 0 where
  pub current_branch : String
  pub dirty : Bool

pub record PreflightFlags : Type 0 where
  pub allow_branch_mismatch : Bool
  pub allow_dirty_worktree : Bool
  pub require_clean_worktree : Bool

pub record Preflight : Type 0 where
  pub repo_state : RepoState
  pub ok_to_run : Bool
  pub issues : List String
  pub flags : PreflightFlags

abbrev branch_issues : String → RepoState → PreflightFlags → List String → List String
branch_issues target s f rest =
    if not (s.current_branch == target) && not f.allow_branch_mismatch
    then "branch_mismatch" ∷ rest
    else rest

abbrev dirty_issues : String → RepoState → PreflightFlags → List String
dirty_issues target s f =
    if s.dirty && not (s.current_branch == target) && not f.allow_dirty_worktree
    then "dirty_worktree_on_mismatched_branch" ∷ []
    else if s.dirty && f.require_clean_worktree && not f.allow_dirty_worktree
    then "dirty_worktree_requires_clean_checkout" ∷ []
    else []

unfoldable pub run_repo_preflight : String → RepoState → PreflightFlags → Preflight
run_repo_preflight target s f =
    let issues = branch_issues target s f (dirty_issues target s f) in
    record { repo_state = s; ok_to_run = is_empty issues; issues = issues; flags = f }
