-- ===== src/Scheduler/Defaults.antt =====
-- BASE_DEFAULT_TASKS and `_default_tasks` of scheduler/service.py.
use project_os_core.Base.{
  ℕ, ◌*◌, max, String, Bool, true, false, Option, none, some, List, [], ◌∷◌, ◌++◌,
}
use project_os_core.Base.Dict.{Dict}
use project_os_core.World.{Value, text, number}

-- what a definition of a default task holds
pub record TaskDef : Type 0 where
  pub name : String
  pub schedule_kind : String
  pub interval_seconds : Option ℕ
  pub daily_at_hour : Option ℕ
  pub daily_at_minute : Option ℕ
  pub command : String
  pub command_args : Dict Value
  pub enabled : Bool

-- config.curator, config.blocks and config.supersession, by the fields that are read
pub record MemoryConfig : Type 0 where
  pub curator_interval_seconds : ℕ
  pub curator_enabled : Bool
  pub blocks_refresh_interval_seconds : ℕ
  pub blocks_enabled : Bool
  pub supersession_interval_seconds : ℕ
  pub supersession_enabled : Bool

pub record GitHubConfig : Type 0 where
  pub sync_interval_hours : ℕ
  pub sync_enabled : Bool

every : String → ℕ → Dict Value → Bool → TaskDef
every name seconds args enabled = record {
  name = name;
  schedule_kind = "interval";
  interval_seconds = some seconds;
  daily_at_hour = none;
  daily_at_minute = none;
  command = name;
  command_args = args;
  enabled = enabled;
}

unfoldable pub base_default_tasks : List TaskDef
unfolding every
base_default_tasks =
    every "memory_compact" (3600 * 6) (("trigger", text "scheduled") ∷ []) true
    ∷ every "health_check" 3600 [] true
    ∷ record {
      name = "daily_audit";
      schedule_kind = "daily_at";
      interval_seconds = none;
      daily_at_hour = some 6;
      daily_at_minute = some 0;
      command = "daily_audit";
      command_args =
          ("mode", text "audit") ∷ ("objective", text "Audit quotidien automatique du repo") ∷ [];
      enabled = false;
    }
    ∷ every "project_review_loop" (3600 * 12) (("limit", number 12) ∷ []) true
    ∷ record (every "cleanup_expired_deliveries" (3600 * 12) (("max_age_hours", number 48) ∷ [])
        true) { command = "cleanup_deliveries" }
    ∷ []

unfoldable pub memory_tasks : Option MemoryConfig → List TaskDef
unfolding every
memory_tasks none = []
memory_tasks (some c) =
    every "memory_curator_sleeptime" (max 300 c.curator_interval_seconds)
      (("trigger", text "scheduled") ∷ []) c.curator_enabled
    ∷ every "memory_block_refresh" (max 300 c.blocks_refresh_interval_seconds) [] c.blocks_enabled
    ∷ every "memory_supersession_scan" (max 600 c.supersession_interval_seconds) []
        c.supersession_enabled
    ∷ []

unfoldable pub github_tasks : Option GitHubConfig → List TaskDef
unfolding every
github_tasks none = []
github_tasks (some c) =
    every "github_issue_learning_sync" (max 1 c.sync_interval_hours * 3600) [] c.sync_enabled ∷ []

unfoldable pub default_tasks : Option MemoryConfig → Option GitHubConfig → List TaskDef
unfolding base_default_tasks memory_tasks github_tasks
default_tasks m g = base_default_tasks ++ (memory_tasks m ++ github_tasks g)
