-- ===== src/Runtime/Newest.antt =====
-- `latest_runtime_state` of runtime/store.py returns the state that was captured last.
use project_os_core.Base.{◌≤◌, ◌≡◌, some, List, [], ◌∷◌, All, All-imp, arith, leb→le}
use project_os_core.Base.Sort.{sort_by, All-sort_by, sort_by-IsSorted, IsSorted}
use project_os_core.Runtime.{RuntimeState, RuntimeStore}
use project_os_core.Runtime.Store.{latest_runtime_state, captured_later, first_of}

first-newest :
    (ts : List RuntimeState) (t : RuntimeState)
    → IsSorted captured_later ts
    → first_of ts ≡ some t
    → All (λ u. u.captured_at ≤ t.captured_at) ts
first-newest [] t h e = absurd cc
first-newest (x ∷ ts) t h e =
    let same : x.captured_at ≡ t.captured_at = cc in
    (
      omega (arith, same),
      All-imp (λ u later. omega (arith, same, leb→le u.captured_at x.captured_at later)) ts h.0,
    )

-- No recorded state was captured after the one that is returned.
pub latest_runtime_state-newest :
    (r : RuntimeStore) (t : RuntimeState)
    → latest_runtime_state r ≡ some t
    → All (λ u. u.captured_at ≤ t.captured_at) r.runtime_states
unfolding latest_runtime_state
latest_runtime_state-newest r t h =
    All-sort_by captured_later (λ u. u.captured_at ≤ t.captured_at) r.runtime_states
      (first-newest (sort_by captured_later r.runtime_states) t
        (sort_by-IsSorted captured_later (λ x y. ground arith) (λ x y z a b. ground arith)
          r.runtime_states)
        h)
