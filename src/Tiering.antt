-- ===== src/Tiering.antt =====
-- memory/tiering.py, with `get` and `move_to_cold` of memory/store.py: the warm records that are old enough
-- become cold, but for the latest ones. `write_json_artifact` writes a record's file, or raises; `later_id` is
-- the order of SQLite on texts. The report's folder is managed, so that its write does not raise.
pub mod Candidates
pub mod Archived
use Prim.Native.String.{◌++◌ as concat}
use project_os_core.Base.{
  ℕ, suc, ◌+◌, ◌*◌, String, Bool, true, false, ◌&&◌, ◌||◌, not, Option, none, some, List, [], ◌∷◌,
  ◌++◌, map, length, filter, take, drop, leb, ltb, eqb, ◌==◌, if◌then◌else◌,
}
use project_os_core.Base.Sort.{sort_by}
use project_os_core.Base.Table.{fetchone, update_where, upsert}
use project_os_core.Base.Result.{Result, ok, err, key_error, and_then}
use project_os_core.World.{Outside, Context, text, number, append}
use project_os_core.Runtime.{ArtifactPointer, PointerRow}

pub data MemoryTier : Type 0 where
  hot warm cold : MemoryTier

abbrev pub tier_value : MemoryTier → String
tier_value hot = "hot"
tier_value warm = "warm"
tier_value cold = "cold"

abbrev pub is_warm : MemoryTier → Bool
is_warm warm = true
is_warm _ = false

-- the columns of memory_records that tiering reads or writes, and the content
pub record MemoryRecord : Type 0 where
  pub memory_id : String
  pub content : String
  pub tier : MemoryTier
  pub archived_artifact_path : Option String
  pub created_at : ℕ
  pub updated_at : ℕ

pub record TierConfig : Type 0 where
  pub enabled : Bool
  pub auto_archive_on_write : Bool
  pub warm_min_age_hours : ℕ
  pub keep_latest_warm_records : ℕ
  pub max_archive_batch_size : ℕ

pub record Archive : Type 0 where
  pub memory_id : String
  pub archived_artifact_path : Option String
  pub tier : MemoryTier

-- What the service writes to latest_report.json; a key that is absent is none. The ages in hours follow from
-- the times.
pub record Report : Type 0 where
  pub report_id : String
  pub created_at : ℕ
  pub trigger : String
  pub memory_by_tier : List (String × ℕ)
  pub artifact_by_tier : List (String × ℕ)
  pub warm_total : ℕ
  pub protected_latest_count : ℕ
  pub candidate_count : ℕ
  pub candidates : List MemoryRecord
  pub status : Option String
  pub reason : Option String
  pub dry_run : Option Bool
  pub archived : Option (List Archive)

pub record Tiers : Type 0 where
  pub context : Context
  pub records : List MemoryRecord
  pub pointers : List PointerRow
  pub latest_report : Option Report
  pub run_in_progress : Bool

abbrev pub memory_key : MemoryRecord → String
memory_key r = r.memory_id

abbrev pub hour : ℕ
hour = 3_600_000_000

-- GROUP BY tier ORDER BY tier
abbrev counted : String → ℕ → List (String × ℕ) → List (String × ℕ)
counted tier n rest = if eqb n 0 then rest else (tier, n) ∷ rest

abbrev counts : (String → ℕ) → List (String × ℕ)
counts n = counted "cold" (n "cold") (counted "hot" (n "hot") (counted "warm" (n "warm") []))

abbrev count_records : List MemoryRecord → String → ℕ
count_records rows tier = length (filter (λ r. tier_value r.tier == tier) rows)

abbrev count_pointers : List PointerRow → String → ℕ
count_pointers rows tier = length (filter (λ r. r.pointer.storage_tier == tier) rows)

abbrev pointer_key : PointerRow → String
pointer_key r = r.pointer.artifact_id

abbrev keep_pointer : PointerRow → PointerRow → PointerRow
keep_pointer old new = record new {
  pointer = record new.pointer { created_at = old.pointer.created_at };
}

-- the UPDATE of move_to_cold
abbrev pub to_cold : String → MemoryRecord → MemoryRecord
to_cold path r = record r { tier = cold; archived_artifact_path = some path }

abbrev pub archive_of : MemoryRecord → Archive
archive_of r = record {
  memory_id = r.memory_id;
  archived_artifact_path = r.archived_artifact_path;
  tier = r.tier;
}

module _ (later_id : String → String → Bool) where
  -- ORDER BY created_at DESC, memory_id DESC
  abbrev pub newer : MemoryRecord → MemoryRecord → Bool
  newer a b =
      ltb b.created_at a.created_at
      || (eqb a.created_at b.created_at && later_id a.memory_id b.memory_id)

  unfoldable pub warm_rows : List MemoryRecord → List MemoryRecord
  warm_rows rows = sort_by newer (filter (λ r. is_warm r.tier) rows)

  abbrev pub old_enough : TierConfig → ℕ → MemoryRecord → Bool
  old_enough g now r = leb (r.created_at + g.warm_min_age_hours * hour) now

  -- the loop over the warm rows
  unfoldable pub tier_candidates : TierConfig → ℕ → List MemoryRecord → List MemoryRecord
  unfolding warm_rows
  tier_candidates g now rows =
      filter (old_enough g now) (drop g.keep_latest_warm_records (warm_rows rows))

  module _ (o : Outside) (g : TierConfig)
      (write_json_artifact : MemoryRecord → Context → Result ArtifactPointer × Context) where
    abbrev report_at : ℕ → String → Context → Tiers → Report
    report_at now trigger c s = record {
      report_id = o.fresh "tier_report" c.identifiers;
      created_at = now;
      trigger = trigger;
      memory_by_tier = counts (count_records s.records);
      artifact_by_tier = counts (count_pointers s.pointers);
      warm_total = length (warm_rows s.records);
      protected_latest_count = g.keep_latest_warm_records;
      candidate_count = length (tier_candidates g now s.records);
      candidates = take g.max_archive_batch_size (tier_candidates g now s.records);
      status = none;
      reason = none;
      dry_run = none;
      archived = none;
    }

    abbrev pub write_report : Report → Tiers → Tiers
    write_report r s = record s { latest_report = some r }

    abbrev time_given : Option ℕ → Context → ℕ × Context
    time_given none c = (o.wall c.readings, record c { readings = suc c.readings })
    time_given (some now) c = (now, c)

    unfoldable pub analyze : Option ℕ → String → Tiers → Report × Tiers
    unfolding tier_candidates
    analyze now trigger s =
        let (at, c) = time_given now s.context in
        let r = report_at at trigger c s in
        (r, write_report r (record s { context = record c { identifiers = suc c.identifiers } }))

    abbrev memory_of : String → Option MemoryRecord → Result MemoryRecord
    memory_of id none = err (key_error (concat "Unknown memory_id: " id))
    memory_of id (some r) = ok r

    -- MemoryStore.get
    unfoldable pub get_memory : String → Tiers → Result MemoryRecord
    get_memory id s = memory_of id (fetchone memory_key id s.records)

    -- _persist_artifact once the file is written, and the UPDATE
    abbrev pub store_moved :
        MemoryRecord → Result ArtifactPointer × Context → Tiers → Result MemoryRecord × Tiers
    store_moved r (err e, c) s = (err e, record s { context = c })
    store_moved r (ok p, c) s =
        let row : PointerRow = record {
          owner_type = "memory_record";
          owner_id = r.memory_id;
          pointer = p;
        } in
        (
          ok (to_cold p.path r),
          record s {
            context = c;
            pointers = upsert pointer_key keep_pointer row s.pointers;
            records = update_where memory_key r.memory_id (to_cold p.path) s.records;
          },
        )

    abbrev pub move_found : Result MemoryRecord → Tiers → Result MemoryRecord × Tiers
    move_found (err e) s = (err e, s)
    move_found (ok r) s = store_moved r (write_json_artifact r s.context) s

    -- MemoryStore.move_to_cold
    unfoldable pub move_to_cold : String → Tiers → Result MemoryRecord × Tiers
    unfolding get_memory
    move_to_cold id s = move_found (get_memory id s) s

    abbrev pub next_archive : List Archive → MemoryRecord → Tiers → Result (List Archive) × Tiers
    next_archive done r s = (ok (done ++ archive_of r ∷ []), s)

    -- for candidate in report["candidates"]
    unfoldable pub archive_all :
        List MemoryRecord → List Archive → Tiers → Result (List Archive) × Tiers
    unfolding move_to_cold
    archive_all [] done s = (ok done, s)
    archive_all (r ∷ rows) done s =
        and_then (and_then (move_to_cold r.memory_id s) (next_archive done)) (archive_all rows)

    abbrev pub told_compacted : Report → List Archive → Tiers → Result (List Archive) × Tiers
    told_compacted r done s = (
      ok done,
      record s {
        context =
            append o "tier_manager_compacted" "memory"
              (("trigger", text r.trigger)
                ∷ ("archived_count", number (length done))
                ∷ ("candidate_count", number r.candidate_count)
                ∷ [])
              s.context;
      },
    )

    abbrev pub finished : Report → Bool → List Archive → Tiers → Result Report × Tiers
    finished r dry done s =
        let report = record r {
          status = some (if dry then "dry_run" else "completed");
          dry_run = some dry;
          archived = some done;
        } in
        (ok report, write_report report s)

    abbrev pub archived_for : Bool → Report → Tiers → Result (List Archive) × Tiers
    archived_for true r s = (ok [], s)
    archived_for false r s = and_then (archive_all r.candidates [] s) (told_compacted r)

    -- finally: self._run_in_progress = False
    abbrev pub released : Result Report × Tiers → Result Report × Tiers
    released (x, s) = (x, record s { run_in_progress = false })

    abbrev pub run_compaction : Bool → Report × Tiers → Result Report × Tiers
    run_compaction dry (r, s) = and_then (archived_for dry r s) (finished r dry)

    abbrev skipped : Report × Tiers → Result Report × Tiers
    skipped (r, s) =
        let report = record r {
          status = some "skipped";
          reason = some "tier_manager_run_in_progress";
        } in
        (ok report, write_report report s)

    unfoldable pub compact : Bool → String → Option ℕ → Tiers → Result Report × Tiers
    unfolding analyze archive_all append
    compact dry trigger now s =
        if s.run_in_progress
        then skipped (analyze now (concat trigger ":reentrant") s)
        else released
            (run_compaction dry (analyze now trigger (record s { run_in_progress = true })))

    abbrev disabled : Report × Tiers → Result Report × Tiers
    disabled (r, s) =
        let report = record r { status = some "disabled" } in (ok report, write_report report s)

    unfoldable pub maybe_auto_archive : String → Tiers → Result Report × Tiers
    unfolding analyze compact
    maybe_auto_archive trigger s =
        if not g.enabled || not g.auto_archive_on_write
        then disabled (analyze none (concat trigger ":disabled") s)
        else compact false trigger none s
