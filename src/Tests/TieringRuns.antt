-- ===== src/Tests/TieringRuns.antt =====
-- The tiers of the memory on three warm records.
use project_os_core.Base.{
  ℕ, ◌*◌, ◌≡◌, refl, String, Bool, true, false, none, some, List, [], ◌∷◌, All, ◌==◌,
}
use project_os_core.Base.Sort.{sort_by}
use project_os_core.Base.Table.{fetchone}
use project_os_core.Base.Result.{Result, ok}
use project_os_core.World.{Context}
use project_os_core.Runtime.{ArtifactPointer}
use project_os_core.Tiering.{
  MemoryRecord, TierConfig, Tiers, Report, warm, warm_rows, tier_candidates, analyze, compact,
  memory_key, hour,
}
use project_os_core.Tiering.Archived.{Compacted, compact-others, compact-Compacted}
use project_os_core.Tests.Samples.{outside, context}

abbrev any_order : String → String → Bool
any_order a b = true

abbrev config : TierConfig
config = record {
  enabled = true;
  auto_archive_on_write = true;
  warm_min_age_hours = 6;
  keep_latest_warm_records = 1;
  max_archive_batch_size = 32;
}

abbrev warm_at : String → ℕ → MemoryRecord
warm_at id at = record {
  memory_id = id;
  content = "a note";
  tier = warm;
  archived_artifact_path = none;
  created_at = at;
  updated_at = at;
}

abbrev rows : List MemoryRecord
rows = warm_at "m1" 0 ∷ warm_at "m2" (2 * hour) ∷ warm_at "m3" (9 * hour) ∷ []

abbrev tiers : Tiers
tiers = record {
  context = context;
  records = rows;
  pointers = [];
  latest_report = none;
  run_in_progress = false;
}

abbrev pointer : ArtifactPointer
pointer = record {
  artifact_id = "artifact";
  artifact_kind = "episode";
  storage_tier = "cold";
  path = "episode.json";
  checksum_sha256 = "0";
  size_bytes = 2;
  created_at = 1;
}

abbrev write : MemoryRecord → Context → Result ArtifactPointer × Context
write r c = (ok pointer, c)

compact-Compacted_example :
    (report : Report) × ((compact any_order outside config write false "manual" none tiers).0
      ≡ ok report)
    × Compacted false report rows
        (compact any_order outside config write false "manual" none tiers).1.records
compact-Compacted_example =
    compact-Compacted any_order outside config write (λ r c. (pointer, c, refl)) false "manual" none
      tiers refl

not_proposed :
    All
      (λ r. (r.memory_id == "m3") ≡ false)
      (analyze any_order outside config write (some (10 * hour)) "manual" tiers).0.candidates
unfolding analyze tier_candidates warm_rows sort_by
not_proposed = (refl, (refl, tt))

compact-others_example :
    (fetchone memory_key "m3"
        (compact any_order outside config write false "manual" (some (10 * hour)) tiers).1.records
      ≡ fetchone memory_key "m3" rows)
    × ((compact any_order outside config write false "manual"
          (some (10 * hour))
          tiers).1.run_in_progress
        ≡ false)
compact-others_example =
    compact-others any_order outside config write "m3" "manual" false (some (10 * hour)) tiers
      not_proposed
