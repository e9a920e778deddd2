-- ===== src/Graph/Rules/Modules/Tallies.antt =====
-- What the loops over symbols collect of each file.
use native.Mathlib.Omega.{arith}
use Prim.Native.String.{◌++◌ as str_append}
use beadloom.Base.{
  ℕ, ◌+◌, String, Bool, true, false, not, ◌&&◌, ◌||◌, Option, none, some, List, [], ◌∷◌,
  if◌then◌else◌, ◌==◌, string_equality, nat_equality, ◌≡◌, refl, ◌∙◌, ap, sym, eq_iff, any_of,
  keep_if, contains, keys, lookup, insert, lookup-insert, HasUniqueKeys, any_of-sort_by, Bool-cases,
  inl, inr, subst,
}
use beadloom.Json.{Fields}
use beadloom.Graph.Rules.Database.{SymbolRow, Database, mapping}
use beadloom.Graph.Rules.Externals.{Externals}
use beadloom.Graph.Rules.Modules.{
  Tally, tally_or_new, bump, has_key, is_domain, tally_files, file_before, is_candidate,
  symbols_under, candidate_files,
}

-- How many of the rows are of the file.
abbrev pub symbols_of : String → List SymbolRow → ℕ
symbols_of file [] = 0
symbols_of file (row ∷ rows) = (if row.file_path == file then 1 else 0) + symbols_of file rows

-- A row of the file has annotations of the kind.
abbrev pub has_row : (Fields → Bool) → String → List SymbolRow → Bool
has_row flag file rows =
    any_of (λ row. row.file_path == file && flag (mapping row.annotations)) rows

abbrev grown : (Fields → Bool) → (Fields → Bool) → String → List SymbolRow → Tally → Tally
grown attributes features file rows tally = record {
  count = tally.count + symbols_of file rows;
  attributed = has_row attributes file rows || tally.attributed;
  featured = has_row features file rows || tally.featured;
}

abbrev collected :
    (Fields → Bool) → (Fields → Bool) → String → List SymbolRow → Option Tally → Option Tally
collected attributes features file rows none =
    if symbols_of file rows == 0
    then none
    else some (grown attributes features file rows (tally_or_new none))
collected attributes features file rows (some tally) =
    some (grown attributes features file rows tally)

module _ (attributes features : Fields → Bool) where
  collected-cons :
      (file : String) (row : SymbolRow) (rows : List SymbolRow) (o : Option Tally)
      → collected attributes features file rows (
          if row.file_path == file then some (bump attributes features row (tally_or_new o)) else o)
        ≡ collected attributes features file (row ∷ rows) o
  collected-cons file row rows none = ground arith
  collected-cons file row rows (some tally) = ground arith

  collected-nil : (file : String) (o : Option Tally) → o ≡ collected attributes features file [] o
  collected-nil file none = refl
  collected-nil file (some tally) = ground arith

  collected-step :
      (file : String) (row : SymbolRow) (rows : List SymbolRow) (before o : Option Tally)
      → ((row.file_path == file) ≡ true → before ≡ o)
      → collected attributes features file rows (
          if row.file_path == file
          then some (bump attributes features row (tally_or_new before))
          else o)
        ≡ collected attributes features file (row ∷ rows) o
  collected-step file row rows before o h = elim (Bool-cases (row.file_path == file)) [
    | inl e ↦ rw (h e) (collected-cons file row rows o)
    | inr e ↦
        subst
          (λ b.
            collected attributes features file rows
              (if b then some (bump attributes features row (tally_or_new before)) else o)
            ≡ collected attributes features file rows
                (if b then some (bump attributes features row (tally_or_new o)) else o))
          (sym e) refl
        ∙ collected-cons file row rows o
  ]

  lookup-tally_files :
      (file : String) (rows : List SymbolRow) (tallies : List (String × Tally))
      → lookup file (tally_files attributes features rows tallies)
        ≡ collected attributes features file rows (lookup file tallies)
  unfolding tally_files
  lookup-tally_files file [] tallies = collected-nil file (lookup file tallies)
  lookup-tally_files file (row ∷ rows) tallies =
      let before = lookup row.file_path tallies in
      let tally = bump attributes features row (tally_or_new before) in
      lookup-tally_files file rows (insert row.file_path tally tallies)
      ∙ ap (collected attributes features file rows)
          (lookup-insert row.file_path file tally tallies)
      ∙ collected-step file row rows before (lookup file tallies)
          (λ e. ap (λ k. lookup k tallies) ((eq_iff row.file_path file).0 e))

contains-keys-insert :
    (k j : String) (v : Tally) (d : List (String × Tally))
    → contains (keys (insert k v d)) j ≡ (contains (keys d) j || k == j)
unfolding insert
contains-keys-insert k j v [] = ground arith
contains-keys-insert k j v ((i, w) ∷ d) =
    ground (arith, eq_iff i k, eq_iff i j, eq_iff k j, contains-keys-insert k j v d)

HasUniqueKeys-insert :
    (k : String) (v : Tally) (d : List (String × Tally))
    → HasUniqueKeys d
    → HasUniqueKeys (insert k v d)
unfolding insert
HasUniqueKeys-insert k v [] h = (refl, tt)
HasUniqueKeys-insert k v ((i, w) ∷ d) h = elim (Bool-cases (i == k)) [
  | inl e ↦ rw e (ground (arith, eq_iff i k), h.1)
  | inr e ↦ rw e (
    ground (arith, contains-keys-insert k i v d, eq_iff i k, eq_iff k i),
    HasUniqueKeys-insert k v d h.1,
  )
]

HasUniqueKeys-tally_files :
    (attributes features : Fields → Bool) (rows : List SymbolRow) (tallies : List (String × Tally))
    → HasUniqueKeys tallies
    → HasUniqueKeys (tally_files attributes features rows tallies)
unfolding tally_files
HasUniqueKeys-tally_files attributes features [] tallies h = h
HasUniqueKeys-tally_files attributes features (row ∷ rows) tallies h =
    HasUniqueKeys-tally_files attributes features rows _ (
      HasUniqueKeys-insert row.file_path
        (bump attributes features row (tally_or_new (lookup row.file_path tallies))) tallies h)

-- The tally of the file, if it has one, passes the test.
abbrev passes : (Tally → Bool) → Option Tally → Bool
passes p none = false
passes p (some tally) = p tally

abbrev pub is_of : String → (Tally → Bool) → String × Tally → Bool
is_of file p (path, tally) = path == file && p tally

absent :
    (file : String) (p : Tally → Bool) (d : List (String × Tally))
    → contains (keys d) file ≡ false
    → any_of (is_of file p) d ≡ false
absent file p [] h = refl
absent file p ((path, tally) ∷ d) h = ground (arith, absent file p d)

any_of-lookup :
    (file : String) (p : Tally → Bool) (d : List (String × Tally))
    → HasUniqueKeys d
    → any_of (is_of file p) d ≡ passes p (lookup file d)
any_of-lookup file p [] h = refl
any_of-lookup file p ((path, tally) ∷ d) h =
    ground (arith, eq_iff path file, absent file p d, any_of-lookup file p d h.1)

any_of-keep_if :
    (file : String) (p : Tally → Bool) (d : List (String × Tally))
    → any_of (is_of file p) (keep_if is_candidate d)
      ≡ any_of (is_of file (λ tally. (tally.attributed && not tally.featured) && p tally)) d
any_of-keep_if file p [] = refl
any_of-keep_if file p ((path, tally) ∷ d) = ground (arith, any_of-keep_if file p d)

module _ {F : Type 0} (ext : Externals F) where
  symbols_of-under :
      (file pattern : String) (rows : List SymbolRow)
      → symbols_of file (keep_if (λ (row : SymbolRow). ext.like row.file_path pattern) rows)
        ≡ (if ext.like file pattern then symbols_of file rows else 0)
  symbols_of-under file pattern [] = ground arith
  symbols_of-under file pattern (row ∷ rows) =
      ground (arith, eq_iff row.file_path file, symbols_of-under file pattern rows)

  has_row-under :
      (flag : Fields → Bool) (file pattern : String) (rows : List SymbolRow)
      → has_row flag file (keep_if (λ (row : SymbolRow). ext.like row.file_path pattern) rows)
        ≡ (ext.like file pattern && has_row flag file rows)
  has_row-under flag file pattern [] = ground arith
  has_row-under flag file pattern (row ∷ rows) =
      ground (arith, eq_iff row.file_path file, has_row-under flag file pattern rows)

  has_row-symbols_of :
      (flag : Fields → Bool) (file : String) (rows : List SymbolRow)
      → symbols_of file rows ≡ 0
      → has_row flag file rows ≡ false
  has_row-symbols_of flag file [] h = refl
  has_row-symbols_of flag file (row ∷ rows) h = ground (arith, has_row-symbols_of flag file rows)

  -- A file is a candidate of a domain, with a number of symbols, exactly when its path matches the directory, it has
  -- that many symbols, one of them is annotated with the domain, and none is annotated with a feature.
  pub candidate_files_iff :
      (db : Database) (domain prefix file : String) (n : ℕ)
      → any_of (is_of file (λ tally. tally.count == n)) (candidate_files ext db domain prefix) ≡ (
          ext.like file (str_append prefix "%")
          && has_row (is_domain domain) file db.code_symbols
          && not (has_row (has_key "feature") file db.code_symbols)
          && symbols_of file db.code_symbols == n)
  unfolding candidate_files symbols_under
  candidate_files_iff db domain prefix file n =
      let pattern = str_append prefix "%" in
      let rows = keep_if (λ (row : SymbolRow). ext.like row.file_path pattern) db.code_symbols in
      let tallies = tally_files (is_domain domain) (has_key "feature") rows [] in
      any_of-sort_by _ file_before (keep_if is_candidate tallies)
      ∙ any_of-keep_if file (λ tally. tally.count == n) tallies
      ∙ any_of-lookup file _ tallies
          (HasUniqueKeys-tally_files (is_domain domain) (has_key "feature") rows [] tt)
      ∙ ap (passes (λ tally. (tally.attributed && not tally.featured) && tally.count == n))
          (lookup-tally_files (is_domain domain) (has_key "feature") file rows [])
      ∙ ground (
        arith,
        symbols_of-under file pattern db.code_symbols,
        has_row-under (is_domain domain) file pattern db.code_symbols,
        has_row-under (has_key "feature") file pattern db.code_symbols,
        has_row-symbols_of (is_domain domain) file rows,
      )
