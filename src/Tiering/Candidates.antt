-- ===== src/Tiering/Candidates.antt =====
-- Which warm records memory/tiering.py proposes to archive.
use project_os_core.Base.{
  drop-All, All-pair, ℕ, zero, suc, ◌+◌, ◌*◌, ◌≤◌, String, ◌≡◌, ◌⊎◌, Bool, true, List, [], ◌∷◌, All,
  All-imp, filter-All, filter_holds, arith, filter, take, drop, leb→le,
}
use project_os_core.Base.Sort.{sort_by, sort_by-All, sort_by-IsSorted, IsSorted}
use project_os_core.Tiering.{
  MemoryRecord, TierConfig, is_warm, newer, warm_rows, old_enough, tier_candidates, hour,
}

-- What is first of a sorted list comes before what is left of it.
take_before_drop :
    (before : MemoryRecord → MemoryRecord → Bool) (n : ℕ) (xs : List MemoryRecord)
    → IsSorted before xs
    → All (λ x. All (λ y. before x y ≡ true) (drop n xs)) (take n xs)
take_before_drop before zero xs h = tt
take_before_drop before (suc n) [] h = tt
take_before_drop before (suc n) (x ∷ xs) h =
    (drop-All (λ y. before x y ≡ true) n xs h.0, take_before_drop before n xs h.1)

module _ (later_id : String → String → Bool)
    (total : (a b : String) → (later_id a b ≡ true) ⊎ (later_id b a ≡ true))
    (trans : (a b c : String)
      → later_id a b ≡ true
      → later_id b c ≡ true
      → later_id a c ≡ true) where
  newer_total : (a b : MemoryRecord) → (newer later_id a b ≡ true) ⊎ (newer later_id b a ≡ true)
  newer_total a b = ground (arith, total a.memory_id b.memory_id)

  newer_trans :
      (a b c : MemoryRecord)
      → newer later_id a b ≡ true
      → newer later_id b c ≡ true
      → newer later_id a c ≡ true
  newer_trans a b c h k = ground (arith, h, k, trans a.memory_id b.memory_id c.memory_id)

  -- When SQLite orders the identifiers totally, every candidate is a warm record of at least the least age,
  -- and the records that are protected, the latest warm ones, come before every candidate.
  pub tier_candidates-All :
      (g : TierConfig) (now : ℕ) (rows : List MemoryRecord)
      → All
          (λ r. (is_warm r.tier ≡ true) × (r.created_at + g.warm_min_age_hours * hour ≤ now))
          (tier_candidates later_id g now rows)
        × All
            (λ kept. All (λ r. newer later_id kept r ≡ true) (tier_candidates later_id g now rows))
            (take g.keep_latest_warm_records (warm_rows later_id rows))
  unfolding tier_candidates warm_rows
  tier_candidates-All g now rows =
      let n = g.keep_latest_warm_records in
      let sorted = sort_by (newer later_id) (filter (λ r. is_warm r.tier) rows) in
      (
        All-pair (λ r. is_warm r.tier ≡ true) _ _
            (filter-All (λ r. is_warm r.tier ≡ true) (old_enough later_id g now) (drop n sorted)
              (drop-All (λ r. is_warm r.tier ≡ true) n sorted
                (sort_by-All (newer later_id) (λ r. is_warm r.tier ≡ true) _
                  (filter_holds (λ r. is_warm r.tier) rows))))
            (All-imp (λ r old. leb→le _ now old) _
              (filter_holds (old_enough later_id g now) (drop n sorted))),
        All-imp
            (λ kept after.
              filter-All (λ r. newer later_id kept r ≡ true) (old_enough later_id g now)
                (drop n sorted) after)
            (take n sorted)
            (take_before_drop (newer later_id) n sorted
              (sort_by-IsSorted (newer later_id) newer_total newer_trans _)),
      )
