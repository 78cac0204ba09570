-- ===== src/Guardian/Verdicts.antt =====
-- When the guards of api_runs/service.py let a run go on.
use project_os_core.Base.{
  ℕ, ◌+◌, ◌-◌, ◌*◌, ◌%◌, ◌≤◌, ◌<◌, String, ◌≡◌, ◌≢◌, ◌↔◌, ◌⊎◌, refl, true, false, Option, none,
  some, List, [], ◌∷◌, ◌++◌, All, filter, length, arith, eq_iff,
}
use project_os_core.Base.Result.{ok}
use project_os_core.Mission.{mode_value, run_status_value}
use project_os_core.Guardian.{
  ResultRow, RequestRow, GuardPolicy, GuardedRequest, RunTables, hour, day, is_spent, sum_spent,
  is_repeat, guardian_pre_spend_check, daily_spend, loop_count, has_recent_founder_approval,
  RepoState, PreflightFlags, run_repo_preflight,
}

-- What the guardian does not count: a failed run or one of an earlier day, and a request of another branch or
-- mode, or from before the window.
abbrev pub IsOverlooked : ℕ → ResultRow → Type 0
IsOverlooked now r = (run_status_value r.status ≡ "failed") ⊎ (r.created_at < now - now % day)

abbrev pub IsElsewhere : GuardPolicy → GuardedRequest → ℕ → RequestRow → Type 0
IsElsewhere p q later r =
    (r.branch_name ≢ q.branch_name)
    ⊎ ((mode_value r.mode ≢ mode_value q.mode)
        ⊎ (r.created_at < later - p.loop_detection_window_hours * hour))

-- A request of the same branch and mode, within the window.
abbrev pub IsAgain : GuardPolicy → GuardedRequest → ℕ → RequestRow → Type 0
IsAgain p q later r =
    (r.branch_name ≡ q.branch_name)
    × (r.mode ≡ q.mode)
    × (later - p.loop_detection_window_hours * hour ≤ r.created_at)

overlooked_spend :
    (now : ℕ) (more rows : List ResultRow)
    → All (IsOverlooked now) more
    → sum_spent (filter (is_spent (now - now % day)) (more ++ rows))
      ≡ sum_spent (filter (is_spent (now - now % day)) rows)
unfolding is_spent
overlooked_spend now [] rows h = refl
overlooked_spend now (r ∷ more) rows h =
    let unspent : is_spent (now - now % day) r ≡ false =
      ground (arith, h.0, eq_iff (run_status_value r.status) "failed") in
    rw unspent (overlooked_spend now more rows h.1)

module _ (p : GuardPolicy) (q : GuardedRequest) (later : ℕ) where
  elsewhere_count :
      (more rows : List RequestRow)
      → All (IsElsewhere p q later) more
      → filter (is_repeat q (later - p.loop_detection_window_hours * hour)) (more ++ rows)
        ≡ filter (is_repeat q (later - p.loop_detection_window_hours * hour)) rows
  unfolding is_repeat
  elsewhere_count [] rows h = refl
  elsewhere_count (r ∷ more) rows h =
      let apart : is_repeat q (later - p.loop_detection_window_hours * hour) r ≡ false = ground (
        arith,
        h.0,
        eq_iff r.branch_name q.branch_name,
        eq_iff (mode_value r.mode) (mode_value q.mode),
      ) in
      rw apart (elsewhere_count more rows h.1)

  again_count :
      (more rows : List RequestRow)
      → All (IsAgain p q later) more
      → length more
        ≤ length
            (filter (is_repeat q (later - p.loop_detection_window_hours * hour)) (more ++ rows))
  unfolding is_repeat
  again_count [] rows h = omega arith
  again_count (r ∷ more) rows h =
      let repeats : is_repeat q (later - p.loop_detection_window_hours * hour) r ≡ true = ground (
        arith,
        h.0,
        eq_iff r.branch_name q.branch_name,
        eq_iff (mode_value r.mode) (mode_value q.mode),
      ) in
      rw repeats (let rest = again_count more rows h.1 in omega (arith, rest))

module _ (format_cost : ℕ → String) (p : GuardPolicy) (q : GuardedRequest) (estimated now later : ℕ)
    (t : RunTables) where
  -- The guardian's verdict and its reason are the same when failed runs, runs of earlier days, requests of
  -- other branches or modes and requests from before the window are added to the tables.
  pub guardian_pre_spend_check-overlooks :
      (results : List ResultRow) (requests : List RequestRow)
      → All (IsOverlooked now) results
      → All (IsElsewhere p q later) requests
      → guardian_pre_spend_check format_cost p q estimated now later
          (ok (record { results = results ++ t.results; requests = requests ++ t.requests }))
        ≡ guardian_pre_spend_check format_cost p q estimated now later (ok t)
  unfolding guardian_pre_spend_check daily_spend loop_count
  guardian_pre_spend_check-overlooks results requests spent asked =
      rw
        (
          overlooked_spend now results t.results spent,
          elsewhere_count p q later requests t.requests asked,
        )
        refl

  -- When the tables can be read, and as many requests of a branch and mode as the threshold are within the
  -- window, the guardian refuses the next one that does not override it, whatever it costs and whatever else is in
  -- the tables.
  pub guardian_pre_spend_check-loops :
      (requests : List RequestRow)
      → All (IsAgain p q later) requests
      → p.loop_detection_threshold ≤ length requests
      → q.guardian_override ≡ false
      → (guardian_pre_spend_check format_cost p q estimated now later
          (ok (record t { requests = requests ++ t.requests }))).0
        ≡ false
  unfolding guardian_pre_spend_check daily_spend loop_count
  guardian_pre_spend_check-loops requests again enough plain =
      let counted = again_count p q later requests t.requests again in
      rw plain (ground (arith, counted, enough))

-- The preflight lets a run go on exactly when the branch is the target or a mismatch is allowed, and the
-- worktree is clean, or a dirty one is allowed, or it is dirty on the target branch and need not be clean.
pub run_repo_preflight-ok :
    (target : String) (s : RepoState) (f : PreflightFlags)
    → ((run_repo_preflight target s f).ok_to_run ≡ true) ↔ (
        ((s.current_branch ≡ target) ⊎ (f.allow_branch_mismatch ≡ true))
        × ((s.dirty ≡ false)
            ⊎ ((f.allow_dirty_worktree ≡ true)
                ⊎ ((s.current_branch ≡ target) × (f.require_clean_worktree ≡ false)))))
unfolding run_repo_preflight
run_repo_preflight-ok target s f =
    (ground (arith, eq_iff s.current_branch target), ground (arith, eq_iff s.current_branch target))

-- The fallback of an unverified dashboard needs a go that is at most as old as the grace of the policy.
pub has_recent_founder_approval-grace :
    (p : GuardPolicy) (decision : Option String) (at : Option ℕ) (now : ℕ)
    → has_recent_founder_approval p decision at now ≡ true
    → ((decision ≡ some "go") ⊎ (decision ≡ some "go_avec_correction"))
      × ((t : ℕ) × (at ≡ some t)
          × (t ≤ now)
          × (now ≤ t + p.founder_approval_grace_seconds * 1_000_000))
unfolding has_recent_founder_approval
has_recent_founder_approval-grace p none at now h = absurd cc
has_recent_founder_approval-grace p (some d) none now h = absurd (ground (arith, h))
has_recent_founder_approval-grace p (some d) (some t) now h = (
  ground (arith, h, eq_iff d "go", eq_iff d "go_avec_correction"),
  (t, refl, ground (arith, h), ground (arith, h)),
)
