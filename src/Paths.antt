-- ===== src/Paths.antt =====
-- PathPolicy of paths.py. A resolved path is the list of its components; `resolve` is that of the file system
-- on a text (home folder and symbolic links included), and `show` writes a path as a text.
pub mod Writes
use Prim.Native.String.{◌++◌ as concat}
use project_os_core.Base.{
  String, Bool, true, false, ◌&&◌, ◌||◌, not, List, [], ◌∷◌, ◌==◌, if◌then◌else◌,
}
use project_os_core.Base.Result.{Result, ok, err, permission_error}

-- the fields of ProjectPaths that the policy reads
pub record ProjectPaths : Type 0 where
  pub archive_do_not_touch_root : List String
  pub runtime_root : List String
  pub openclaw_runtime_root : List String
  pub memory_hot_root : List String
  pub memory_warm_root : List String
  pub index_root : List String
  pub session_root : List String
  pub cache_root : List String
  pub archive_root : List String

abbrev pub forbidden_roots : ProjectPaths → List (List String)
forbidden_roots p = p.archive_do_not_touch_root ∷ []

abbrev pub managed_roots : ProjectPaths → List (List String)
managed_roots p =
    p.runtime_root ∷ p.openclaw_runtime_root ∷ p.memory_hot_root ∷ p.memory_warm_root ∷ p.index_root
    ∷ p.session_root ∷ p.cache_root ∷ p.archive_root ∷ []

-- whether path.relative_to(root) raises nothing
unfoldable pub is_relative_to : List String → List String → Bool
is_relative_to [] path = true
is_relative_to (r ∷ root) [] = false
is_relative_to (r ∷ root) (c ∷ path) = r == c && is_relative_to root path

-- the loop over the roots
unfoldable pub is_under : List (List String) → List String → Bool
unfolding is_relative_to
is_under [] path = false
is_under (root ∷ roots) path = is_relative_to root path || is_under roots path

module _ (resolve : String → List String) (show : List String → String) (p : ProjectPaths) where
  unfoldable pub is_forbidden : String → Bool
  unfolding is_under
  is_forbidden candidate = is_under (forbidden_roots p) (resolve candidate)

  unfoldable pub is_managed : String → Bool
  unfolding is_under
  is_managed candidate = is_under (managed_roots p) (resolve candidate)

  unfoldable pub ensure_allowed_write : String → Result (List String)
  unfolding is_forbidden is_managed
  ensure_allowed_write candidate =
      let path = resolve candidate in
      if is_forbidden (show path)
      then err (permission_error (concat "Refusing to write inside forbidden zone: " (show path)))
      else if not (is_managed (show path))
      then err (permission_error (concat "Refusing to write outside managed roots: " (show path)))
      else ok path
