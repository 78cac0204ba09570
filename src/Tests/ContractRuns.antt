-- ===== src/Tests/ContractRuns.antt =====
-- Contracts, costs and guards on concrete inputs.
use project_os_core.Base.{
  String, ◌≡◌, ◌≢◌, inl, inr, refl, true, false, none, List, [], ◌∷◌, ◌++◌, All, arith, eqb, eq_iff,
}
use mathlib.Core.Bool.{false≢true}
use project_os_core.Base.Text.{strip, lower}
use project_os_core.Base.Dict.{get}
use project_os_core.Base.Table.{fetchone, update_where}
use project_os_core.Base.Result.{Result, ok, err, value_error}
use project_os_core.Mission.{audit, design, reviewed, run_failed, run_status_value}
use project_os_core.Contracts.{RunContract, Contracts, prepared}
use project_os_core.Contracts.Changes.{decided}
use project_os_core.Contracts.Writes.{persist_run_contract}
use project_os_core.Contracts.Methods.{
  Planner, approve_loaded, approve_run_contract, start_contract,
}
use project_os_core.Contracts.Decisions.{
  AllSettled, none_yet, then_call, approves, starts, Calls-AllSettled,
}
use project_os_core.Contracts.Conflicts
use project_os_core.Contracts.Conflicts.{IsRefused, Write-IsRefused}
use project_os_core.Guardian.{
  ResultRow, RequestRow, GuardPolicy, GuardedRequest, RunTables, RepoState, PreflightFlags,
  guardian_pre_spend_check,
}
use project_os_core.Guardian.Verdicts.{
  IsOverlooked, IsElsewhere, IsAgain, guardian_pre_spend_check-overlooks,
  guardian_pre_spend_check-loops,
}
use project_os_core.Tests.Samples.{outside, context}

abbrev planner : Planner
planner = record {
  default_model = "gpt-5.4";
  current_branch = "codex/project-os-core";
  format_cost = λ n. "0.10";
  write_runtime_json = λ folder name c. ok "contract.json";
  build_context_pack = λ r c. (err (value_error "no sources"), c);
  render_prompt = λ p c. (err (value_error "no template"), c);
}

abbrev contract : RunContract
contract = record {
  contract_id = "contract_1";
  context_pack_id = "pack_1";
  prompt_template_id = "template_1";
  mode = audit;
  objective = "audit the router";
  branch_name = "codex/project-os-core";
  target_profile = none;
  model = "gpt-5.4";
  reasoning_effort = "high";
  expected_outputs = [];
  summary = "";
  success_criteria = [];
  estimated_cost_eur = 82_800;
  founder_decision = none;
  founder_decision_at = none;
  status = prepared;
  metadata = [];
  created_at = 5;
  updated_at = 5;
}

abbrev store : Contracts
store = record { context = context; contracts = contract ∷ []; packs = []; templates = [] }

abbrev approved_store : Contracts
approved_store = (approve_run_contract outside planner "contract_1" " GO " none store).1

Calls-AllSettled_example :
    AllSettled (start_contract outside planner "contract_1" "request_1" approved_store).1
Calls-AllSettled_example =
    Calls-AllSettled outside planner
      (then_call (then_call none_yet (approves "contract_1" " GO " none store))
        (starts "contract_1" "request_1" approved_store))
      (refl, tt)

-- the first approval of the loaded contract, and what it returns
abbrev first_write : Result RunContract × Contracts
first_write = approve_loaded outside planner "go" none contract store

abbrev result_or : Result RunContract → RunContract
result_or (ok c) = c
result_or (err e) = contract

first_accepted : first_write.0 ≡ ok (result_or first_write.0)
unfolding approve_loaded persist_run_contract decided fetchone update_where strip lower get
first_accepted = refl

first_later : eqb (result_or first_write.0).updated_at 5 ≡ false
unfolding approve_loaded persist_run_contract decided fetchone update_where strip lower get
first_later = refl

Write-IsRefused_example :
    IsRefused first_write.1.contracts
      (approve_loaded outside planner "stop" none contract first_write.1)
Write-IsRefused_example =
    Write-IsRefused outside planner contract (result_or first_write.0)
      (Conflicts.approves "go" none store) first_accepted first_later
      (Conflicts.approves "stop" none first_write.1)

abbrev policy : GuardPolicy
policy = record {
  daily_budget_limit_eur = 5_000_000;
  loop_detection_window_hours = 2;
  loop_detection_threshold = 3;
  founder_approval_grace_seconds = 1800;
}

abbrev request : GuardedRequest
request = record { branch_name = "codex/project-os-core"; mode = audit; guardian_override = false }

abbrev tables : RunTables
tables = record {
  results =
      record { estimated_cost_eur = 4_000_000; status = reviewed; created_at = 86_500_000_000 }
      ∷ [];
  requests =
      record { branch_name = "codex/project-os-core"; mode = design; created_at = 86_500_000_000 }
      ∷ [];
}

-- Nothing that counts: a failed run, a request of another branch and one of the day before.
abbrev overlooked : List ResultRow
overlooked =
    record { estimated_cost_eur = 9_000_000; status = run_failed; created_at = 86_500_000_000 }
    ∷ record { estimated_cost_eur = 9_000_000; status = reviewed; created_at = 50 }
    ∷ []

abbrev elsewhere : List RequestRow
elsewhere =
    record { branch_name = "codex/other"; mode = audit; created_at = 86_500_000_000 }
    ∷ record { branch_name = "codex/project-os-core"; mode = audit; created_at = 50 }
    ∷ []

other_branch : ◌≢◌ {A = String} "codex/other" "codex/project-os-core"
other_branch e = false≢true ((eq_iff "codex/other" "codex/project-os-core").1 e)

overlooked-All : All (IsOverlooked 86_600_000_000) overlooked
unfolding run_status_value
overlooked-All = (inl refl, (inr (omega arith), tt))

elsewhere-All : All (IsElsewhere policy request 86_600_000_000) elsewhere
elsewhere-All = (inl other_branch, (inr (inr (omega arith)), tt))

guardian_pre_spend_check-overlooks_example :
    guardian_pre_spend_check
      (λ n. "0.10")
      policy
      request
      82_800
      86_600_000_000
      86_600_000_000
      (ok (record {
        results = overlooked ++ tables.results;
        requests = elsewhere ++ tables.requests;
      }))
    ≡ guardian_pre_spend_check
        (λ n. "0.10")
        policy
        request
        82_800
        86_600_000_000
        86_600_000_000
        (ok tables)
guardian_pre_spend_check-overlooks_example =
    guardian_pre_spend_check-overlooks (λ n. "0.10") policy request 82_800 86_600_000_000
      86_600_000_000 tables overlooked elsewhere overlooked-All elsewhere-All

abbrev again : RequestRow
again = record { branch_name = "codex/project-os-core"; mode = audit; created_at = 86_500_000_000 }

again-All : All (IsAgain policy request 86_600_000_000) (again ∷ again ∷ again ∷ [])
again-All =
    ((refl, refl, omega arith), ((refl, refl, omega arith), ((refl, refl, omega arith), tt)))

guardian_pre_spend_check-loops_example :
    (guardian_pre_spend_check
      (λ n. "0.10")
      policy
      request
      0
      86_600_000_000
      86_600_000_000
      (ok (record tables { requests = (again ∷ again ∷ again ∷ []) ++ tables.requests }))).0
    ≡ false
guardian_pre_spend_check-loops_example =
    guardian_pre_spend_check-loops (λ n. "0.10") policy request 0 86_600_000_000 86_600_000_000
      tables (again ∷ again ∷ again ∷ []) again-All (omega arith) refl

abbrev on_main : RepoState
on_main = record { current_branch = "main"; dirty = true }

abbrev mismatch_allowed : PreflightFlags
mismatch_allowed = record {
  allow_branch_mismatch = true;
  allow_dirty_worktree = false;
  require_clean_worktree = false;
}
