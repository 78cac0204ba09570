-- ===== src/Tests/PathRuns.antt =====
-- The policy of paths on concrete roots.
use mathlib.Core.List.{List, [], ◌∷◌}
use project_os_core.Base.{◌≡◌, ◌↔◌, refl, String}
use project_os_core.Base.Result.{ok}
use project_os_core.Paths.{ProjectPaths, managed_roots, ensure_allowed_write}
use project_os_core.Paths.Writes.{IsBelow, IsBelowOne, ensure_allowed_write-ok}

abbrev paths : ProjectPaths
paths = record {
  archive_do_not_touch_root = "e:" ∷ "do_not_touch" ∷ [];
  runtime_root = "d:" ∷ "runtime" ∷ [];
  openclaw_runtime_root = "d:" ∷ "openclaw" ∷ [];
  memory_hot_root = "d:" ∷ "hot" ∷ [];
  memory_warm_root = "d:" ∷ "warm" ∷ [];
  index_root = "d:" ∷ "index" ∷ [];
  session_root = "d:" ∷ "sessions" ∷ [];
  cache_root = "d:" ∷ "cache" ∷ [];
  archive_root = "e:" ∷ "archive" ∷ [];
}

-- A candidate is a name in the current folder, and a path is shown by its name there.
abbrev report : String → List String
report candidate = "d:" ∷ "runtime" ∷ candidate ∷ []

abbrev show : List String → String
show (drive ∷ folder ∷ name ∷ path) = name
show path = ""

ensure_allowed_write-ok_example :
    (ensure_allowed_write report show paths "report.json" ≡ ok (report "report.json")) ↔ (
      (report "report.json" ≡ report "report.json")
      × IsBelowOne (managed_roots paths) (report "report.json")
      × ¬ IsBelow (report "report.json") ("e:" ∷ "do_not_touch" ∷ []))
ensure_allowed_write-ok_example =
    ensure_allowed_write-ok report show (λ candidate. refl) paths "report.json"
      (report "report.json")
