-- ===== src/Tiering/Archived.antt =====
-- What a compaction of memory/tiering.py does to the records.
use package.text.Mathlib.TextPositions.{eq_refl}
use project_os_core.Base.{
  take-All, drop-All, ℕ, String, ◌≡◌, refl, ap, ◌∙◌, inl, inr, Bool, true, false, Option, none,
  some, List, [], ◌∷◌, ◌++◌, All, All-imp, filter-All, arith, Bool-cases, Option-cases, is_some,
  take, ◌==◌,
}
use project_os_core.Base.Sort.{sort_by-All}
use project_os_core.Base.Table.{
  fetchone, update_where, fetchone-update_where, fetchone-key, fetchone_present,
  is_some-fetchone-update_where,
}
use project_os_core.Base.Result.{Result, ok, err, and_then}
use project_os_core.World.{Outside, Context, append}
use project_os_core.Runtime.{ArtifactPointer}
use project_os_core.Tiering.{
  cold, MemoryRecord, TierConfig, Archive, Report, Tiers, memory_key, to_cold, warm_rows,
  tier_candidates, is_warm, newer, old_enough, analyze, get_memory, store_moved, move_to_cold,
  next_archive, told_compacted, finished, archive_of, archive_all, run_compaction, compact,
}

-- The record of this identifier is there, and is cold.
abbrev pub IsCold : String → List MemoryRecord → Type 0
IsCold id rows = (r : MemoryRecord) × (fetchone memory_key id rows ≡ some r) × (r.tier ≡ cold)

-- What a compaction makes of the records: a dry one nothing, another one its candidates cold.
abbrev pub Compacted : Bool → Report → List MemoryRecord → List MemoryRecord → Type 0
Compacted true report before after = after ≡ before
Compacted false report before after = All (λ r. IsCold r.memory_id after) report.candidates

to_cold-IsCold :
    (id j path : String) (rows : List MemoryRecord)
    → IsCold id rows
    → IsCold id (update_where memory_key j (to_cold path) rows)
to_cold-IsCold id j path rows (r, found, was) = elim (Bool-cases (j == id)) [
  | inl named ↦ (
    to_cold path r,
    rw (fetchone-update_where memory_key j id (to_cold path) rows (λ x. refl), named, found) refl,
    refl,
  )
  | inr other ↦ (
    r,
    rw (fetchone-update_where memory_key j id (to_cold path) rows (λ x. refl), other) found,
    was,
  )
]

-- A row that is there is cold after the UPDATE.
to_cold-hit :
    (id path : String) (rows : List MemoryRecord)
    → is_some (fetchone memory_key id rows) ≡ true
    → IsCold id (update_where memory_key id (to_cold path) rows)
to_cold-hit id path rows there = elim (Option-cases (fetchone memory_key id rows)) [
  | inl missing ↦ absurd (ground (arith, there, missing))
  | inr (r, found) ↦ (
    to_cold path r,
    rw (fetchone-update_where memory_key id id (to_cold path) rows (λ x. refl), eq_refl id, found)
        refl,
    refl,
  )
]

module _ (later_id : String → String → Bool) (o : Outside) (g : TierConfig)
    (write : MemoryRecord → Context → Result ArtifactPointer × Context) where
  store_moved-others :
      (id : String) (r : MemoryRecord) (m : Result ArtifactPointer × Context) (s : Tiers)
      → (r.memory_id == id) ≡ false
      → fetchone memory_key id (store_moved later_id o g write r m s).1.records
        ≡ fetchone memory_key id s.records
  store_moved-others id r (err e, c) s other = refl
  store_moved-others id r (ok p, c) s other =
      rw
        (
          fetchone-update_where memory_key r.memory_id id (to_cold p.path) s.records (λ x. refl),
          other,
        )
        refl

  move_to_cold-others :
      (id j : String) (s : Tiers)
      → (j == id) ≡ false
      → fetchone memory_key id (move_to_cold later_id o g write j s).1.records
        ≡ fetchone memory_key id s.records
  unfolding move_to_cold get_memory
  move_to_cold-others id j s other = elim (Option-cases (fetchone memory_key j s.records)) [
    | inl missing ↦ rw missing refl
    | inr (r, found) ↦ rw found (
        store_moved-others id r (write r s.context) s
          (ap (λ k. k == id) (fetchone-key memory_key j s.records r found) ∙ other))
  ]

  archive_all-others :
      (id : String) (rows : List MemoryRecord) (done : List Archive) (s : Tiers)
      → All (λ r. (r.memory_id == id) ≡ false) rows
      → fetchone memory_key id (archive_all later_id o g write rows done s).1.records
        ≡ fetchone memory_key id s.records
  unfolding archive_all
  archive_all-others id [] done s h = refl
  archive_all-others id (r ∷ rows) done s h =
      rest (λ d t. archive_all-others id rows d t h.1)
        (move_to_cold later_id o g write r.memory_id s)
      ∙ move_to_cold-others id r.memory_id s h.0
    where
      rest :
          ((d : List Archive) (t : Tiers)
            → fetchone memory_key id (archive_all later_id o g write rows d t).1.records
              ≡ fetchone memory_key id t.records)
          → (m : Result MemoryRecord × Tiers)
          → fetchone memory_key id
              (and_then
                (and_then m (next_archive later_id o g write done))
                (archive_all later_id o g write rows)).1.records
            ≡ fetchone memory_key id m.1.records
      rest later (err e, t) = refl
      rest later (ok x, t) = later _ t

  archived_for-others :
      (id : String) (dry : Bool) (report : Report) (s : Tiers)
      → All (λ r. (r.memory_id == id) ≡ false) report.candidates
      → fetchone memory_key id (run_compaction later_id o g write dry (report, s)).1.records
        ≡ fetchone memory_key id s.records
  unfolding append
  archived_for-others id true report s h = refl
  archived_for-others id false report s h =
      told (archive_all later_id o g write report.candidates [] s)
      ∙ archive_all-others id report.candidates [] s h
    where
      told :
          (m : Result (List Archive) × Tiers)
          → fetchone memory_key id
              (and_then
                (and_then m (told_compacted later_id o g write report))
                (finished later_id o g write report false)).1.records
            ≡ fetchone memory_key id m.1.records
      told (err e, t) = refl
      told (ok x, t) = refl

  -- A compaction, a failed one included, leaves each record that is no candidate as it was, and leaves the
  -- flag of a running compaction as it found it.
  pub compact-others :
      (id trigger : String) (dry : Bool) (now : Option ℕ) (s : Tiers)
      → All
          (λ r. (r.memory_id == id) ≡ false)
          (analyze later_id o g write now trigger s).0.candidates
      → (fetchone memory_key id (compact later_id o g write dry trigger now s).1.records
          ≡ fetchone memory_key id s.records)
        × ((compact later_id o g write dry trigger now s).1.run_in_progress ≡ s.run_in_progress)
  unfolding compact analyze
  compact-others id trigger dry none s h = elim (Bool-cases s.run_in_progress) [
    | inl running ↦ rw running (refl, refl)
    | inr idle ↦ rw idle (archived_for-others id dry _ _ h, refl)
  ]
  compact-others id trigger dry (some now) s h = elim (Bool-cases s.run_in_progress) [
    | inl running ↦ rw running (refl, refl)
    | inr idle ↦ rw idle (archived_for-others id dry _ _ h, refl)
  ]

  -- Files can be written.
  module _
      (writes : (r : MemoryRecord) (c : Context)
        → (p : ArtifactPointer) × (d : Context) × (write r c ≡ (ok p, d))) where
    move_to_cold-IsCold :
        (id : String) (s : Tiers)
        → is_some (fetchone memory_key id s.records) ≡ true
        → (r : MemoryRecord) × (t : Tiers) × (path : String) × (move_to_cold later_id o g write id s
            ≡ (ok r, t))
          × (t.records ≡ update_where memory_key id (to_cold path) s.records)
    unfolding move_to_cold get_memory
    move_to_cold-IsCold id s there = elim (Option-cases (fetchone memory_key id s.records)) [
      | inl missing ↦ absurd (ground (arith, there, missing))
      | inr (r, found) ↦
          let (p, d, written) = writes r s.context in
          rw (found, written)
            (
              to_cold p.path r,
              _,
              p.path,
              refl,
              ap (λ j. update_where memory_key j (to_cold p.path) s.records)
                  (fetchone-key memory_key id s.records r found),
            )
    ]

    archive_all-IsCold :
        (rows : List MemoryRecord) (done : List Archive) (s : Tiers)
        → All (λ r. is_some (fetchone memory_key r.memory_id s.records) ≡ true) rows
        → (d : List Archive) × (t : Tiers) × (archive_all later_id o g write rows done s
            ≡ (ok d, t))
          × All (λ r. IsCold r.memory_id t.records) rows
          × ((id : String) → IsCold id s.records → IsCold id t.records)
    unfolding archive_all
    archive_all-IsCold [] done s h = (done, s, refl, tt, λ id was. was)
    archive_all-IsCold (r ∷ rows) done s h =
        let (x, u, path, moved_one, wrote) = move_to_cold-IsCold r.memory_id s h.0 in
        let (d, t, ran, cold_rest, kept) = archive_all-IsCold rows (done ++ archive_of x ∷ []) u (
          All-imp
            (λ y there. rw wrote (
              is_some-fetchone-update_where memory_key r.memory_id y.memory_id (to_cold path)
                s.records (λ z. refl) there))
            rows h.1) in
        (
          d,
          t,
          rw moved_one ran,
          (kept r.memory_id (rw wrote (to_cold-hit r.memory_id path s.records h.0)), cold_rest),
          λ id was. kept id (rw wrote (to_cold-IsCold id r.memory_id path s.records was)),
        )

    candidates_present :
        (now : ℕ) (rows : List MemoryRecord)
        → All
            (λ r. is_some (fetchone memory_key r.memory_id rows) ≡ true)
            (take g.max_archive_batch_size (tier_candidates later_id g now rows))
    unfolding tier_candidates warm_rows
    candidates_present now rows =
        let P : MemoryRecord → Type 0 =
          λ r. is_some (fetchone memory_key r.memory_id rows) ≡ true in
        let n = g.keep_latest_warm_records in
        take-All P g.max_archive_batch_size _ (
          filter-All P (old_enough later_id g now) _ (
            drop-All P n _ (
              sort_by-All (newer later_id) P _
                (filter-All P (λ r. is_warm r.tier) rows (fetchone_present memory_key rows)))))

    -- When the files can be written and no compaction runs, a compaction returns a report. If it is a dry one, it
    -- leaves all the records as they were; if not, every record that the report proposes is cold.
    pub compact-Compacted :
        (dry : Bool) (trigger : String) (now : Option ℕ) (s : Tiers)
        → s.run_in_progress ≡ false
        → (report : Report) × ((compact later_id o g write dry trigger now s).0 ≡ ok report)
          × Compacted dry report s.records (compact later_id o g write dry trigger now s).1.records
    unfolding compact analyze append
    compact-Compacted true trigger none s idle = rw idle (_, refl, refl)
    compact-Compacted true trigger (some now) s idle = rw idle (_, refl, refl)
    compact-Compacted false trigger none s idle =
        let start = analyze later_id o g write none trigger (record s { run_in_progress = true }) in
        let (d, t, ran, all_cold, kept) =
          archive_all-IsCold start.0.candidates [] start.1
            (candidates_present (o.wall s.context.readings) s.records) in
        rw (idle, ran) (_, refl, all_cold)
    compact-Compacted false trigger (some now) s idle =
        let start =
          analyze later_id o g write (some now) trigger (record s { run_in_progress = true }) in
        let (d, t, ran, all_cold, kept) =
          archive_all-IsCold start.0.candidates [] start.1 (candidates_present now s.records) in
        rw (idle, ran) (_, refl, all_cold)
