-- ===== src/Paths/Writes.antt =====
-- Where PathPolicy of paths.py lets the program write.
use mathlib.Core.Path.{subst}
use project_os_core.Base.{
  String, ◌≡◌, ◌↔◌, ◌⊎◌, refl, inl, inr, Bool, true, false, List, [], ◌∷◌, ◌++◌, arith, Bool-cases,
  eq_iff, sym,
}
use project_os_core.Base.Result.{ok}
use project_os_core.Paths.{
  ProjectPaths, forbidden_roots, managed_roots, is_relative_to, is_under, is_forbidden, is_managed,
  ensure_allowed_write,
}

-- The path is the root or lies below it.
abbrev pub IsBelow : List String → List String → Type 0
IsBelow path root = (rest : List String) × (root ++ rest ≡ path)

-- The path lies below one of the roots.
abbrev pub IsBelowOne : List (List String) → List String → Type 0
IsBelowOne [] path = ⊥
IsBelowOne (root ∷ roots) path = IsBelow path root ⊎ IsBelowOne roots path

is_relative_to-IsBelow :
    (root path : List String) → is_relative_to root path ≡ true → IsBelow path root
unfolding is_relative_to
is_relative_to-IsBelow [] path h = (path, refl)
is_relative_to-IsBelow (r ∷ root) [] h = absurd cc
is_relative_to-IsBelow (r ∷ root) (c ∷ path) h =
    let (rest, same) = is_relative_to-IsBelow root path (ground (arith, h)) in
    let named : r ≡ c = ground (arith, h, eq_iff r c) in (rest, cc)

IsBelow-is_relative_to :
    (root path : List String) → IsBelow path root → is_relative_to root path ≡ true
unfolding is_relative_to
IsBelow-is_relative_to [] path h = refl
IsBelow-is_relative_to (r ∷ root) [] (rest, same) = absurd cc
IsBelow-is_relative_to (r ∷ root) (c ∷ path) (rest, same) =
    let named : r ≡ c = cc in
    let below : root ++ rest ≡ path = cc in
    ground (arith, named, eq_iff r c, IsBelow-is_relative_to root path (rest, below))

is_under-IsBelowOne :
    (roots : List (List String)) (path : List String)
    → is_under roots path ≡ true
    → IsBelowOne roots path
unfolding is_under
is_under-IsBelowOne [] path h = absurd cc
is_under-IsBelowOne (root ∷ roots) path h = elim (Bool-cases (is_relative_to root path)) [
  | inl below ↦ inl (is_relative_to-IsBelow root path below)
  | inr other ↦ inr (is_under-IsBelowOne roots path (rw other at h))
]

IsBelowOne-is_under :
    (roots : List (List String)) (path : List String)
    → IsBelowOne roots path
    → is_under roots path ≡ true
unfolding is_under
IsBelowOne-is_under [] path h = elim h [ ]
IsBelowOne-is_under (root ∷ roots) path (inl below) =
    ground (arith, IsBelow-is_relative_to root path below)
IsBelowOne-is_under (root ∷ roots) path (inr later) =
    ground (arith, IsBelowOne-is_under roots path later)

module _ (resolve : String → List String) (show : List String → String)
    (again : (candidate : String) → resolve (show (resolve candidate)) ≡ resolve candidate)
    (p : ProjectPaths) where
  allowed_path :
      (candidate : String) (path : List String)
      → (ensure_allowed_write resolve show p candidate ≡ ok path) ↔ (
          (resolve candidate ≡ path)
          × (is_under (managed_roots p) (resolve candidate) ≡ true)
          × (is_under (forbidden_roots p) (resolve candidate) ≡ false))
  unfolding ensure_allowed_write is_forbidden is_managed
  allowed_path candidate path = rw (again candidate) (ground arith, ground arith)

  is_under-forbidden :
      (candidate : String) (path : List String)
      → resolve candidate ≡ path
      → IsBelow path p.archive_do_not_touch_root
      → is_under (forbidden_roots p) (resolve candidate) ≡ true
  is_under-forbidden candidate path same below =
      IsBelowOne-is_under (forbidden_roots p) (resolve candidate)
        (inl (subst (λ x. IsBelow x p.archive_do_not_touch_root) (sym same) below))

  IsBelow-forbidden_roots :
      (candidate : String) (path : List String)
      → resolve candidate ≡ path
      → is_under (forbidden_roots p) (resolve candidate) ≡ true
      → IsBelow path p.archive_do_not_touch_root
  IsBelow-forbidden_roots candidate path same under =
      elim (is_under-IsBelowOne (forbidden_roots p) (resolve candidate) under) [
        | inl below ↦ subst (λ x. IsBelow x p.archive_do_not_touch_root) same below
        | inr none_left ↦ elim none_left [ ]
      ]

  clash : {b : Bool} → b ≡ true → b ≡ false → ⊥
  clash yes_ no_ = cc

  -- When resolving a resolved path again changes nothing, a write is allowed exactly to the resolved path of the
  -- candidate, when that lies in a managed root and not in the zone that is not to be touched.
  pub ensure_allowed_write-ok :
      (candidate : String) (path : List String)
      → (ensure_allowed_write resolve show p candidate ≡ ok path) ↔ (
          (resolve candidate ≡ path)
          × IsBelowOne (managed_roots p) path
          × ¬ IsBelow path p.archive_do_not_touch_root)
  ensure_allowed_write-ok candidate path = (
    λ allowed.
        let (same, managed, free) = (allowed_path candidate path).0 allowed in
        (
          same,
          subst (IsBelowOne (managed_roots p)) same
              (is_under-IsBelowOne (managed_roots p) (resolve candidate) managed),
          λ below. clash (is_under-forbidden candidate path same below) free,
        ),
    λ (same, managed, free). (allowed_path candidate path).1 (
      same,
      IsBelowOne-is_under (managed_roots p) (resolve candidate)
          (subst (IsBelowOne (managed_roots p)) (sym same) managed),
      elim (Bool-cases (is_under (forbidden_roots p) (resolve candidate))) [
        | inl under ↦ absurd (free (IsBelow-forbidden_roots candidate path same under))
        | inr outside ↦ outside
      ],
    ),
  )
