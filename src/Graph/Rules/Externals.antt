-- ===== src/Graph/Rules/Externals.antt =====
-- What the evaluators of src/beadloom/graph/rules/evaluators.py call and do not implement: the glob of `fnmatch`, the
-- operator LIKE of SQLite, floats, and the listing of the files on disk.
use beadloom.Base.{ℕ, String, Bool, List}

pub record Externals (F : Type 0) : Type 0 where
  -- `fnmatch.fnmatch(path, pattern)`
  pub fnmatch : String → String → Bool
  -- `path LIKE pattern`
  pub like : String → String → Bool
  -- `a / b`
  pub ratio : ℕ → ℕ → F
  -- `0.0`
  pub nought : F
  -- `a < b`
  pub below : F → F → Bool
  -- `f"{a:.0%}"`
  pub percent : F → String
  -- `_disk_modules(root, source_root)`
  pub disk_modules : String → List String
