-- ===== src/Graph/Rules/Conformance/Files.antt =====
-- The files that the rules on candidates and on coverage speak of, in the words of the tables.
use native.Mathlib.Omega.{arith}
use mathlib.Core.Logic.Iff
use Prim.Native.String.{◌++◌ as str_append}
use beadloom.Base.{
  ℕ, String, true, false, Option, none, some, List, [], ◌∷◌, ◌≡◌, ◌≢◌, ◌↔◌, inl, inr, refl, sym,
  ◌==◌, string_equality, nat_equality, eq_iff, beq_refl, contains, any_of, ltb, All, Any, All-iff,
  All-concat_map_iff, Bool-cases, subst, starts_with, ends_with_code, is_blank,
}
use beadloom.Graph.Rules.Types.{FeatureCandidateRule}
use beadloom.Graph.Rules.Database.{NodeRow, Database}
use beadloom.Graph.Rules.Externals.{Externals}
use beadloom.Graph.Rules.Cardinality.{source_prefix}
use beadloom.Graph.Rules.Modules.{
  Tally, is_domain, has_key, candidate_files, dir_prefix, sources, node_source_paths,
  node_dir_source_prefixes,
}
use beadloom.Graph.Rules.Modules.Tallies.{is_of, has_row, symbols_of, candidate_files_iff}
use beadloom.Graph.Rules.Selection.{OnOne}

-- The directory of the node, which is neither a domain nor the root, holds the file.
abbrev pub Holds : String → String → NodeRow → Type 0
Holds root file node =
    OnOne
      (λ source.
        (ends_with_code b'/' source ≡ true)
        × (node.kind ≢ "domain")
        × (source_prefix source ≢ source_prefix root)
        × (starts_with (source_prefix source) file ≡ true))
      node.source

dir_prefix_iff :
    (root file : String) (node : NodeRow) (source : Option String)
    → All
        (λ prefix. starts_with prefix file ≡ false)
        (dir_prefix (source_prefix root) node.kind source)
      ↔ ¬ OnOne
          (λ s.
            (ends_with_code b'/' s ≡ true)
            × (node.kind ≢ "domain")
            × (source_prefix s ≢ source_prefix root)
            × (starts_with (source_prefix s) file ≡ true))
          source
unfolding dir_prefix
dir_prefix_iff root file node none = (λ _ n. n, λ _. tt)
dir_prefix_iff root file node (some s) =
    let kinds = eq_iff node.kind "domain" in
    let roots = eq_iff (source_prefix s) (source_prefix root) in ground arith

-- No prefix begins the path exactly when no directory of a node holds the file.
pub node_dir_source_prefixes_iff :
    (db : Database) (root file : String)
    → All (λ prefix. starts_with prefix file ≡ false) (node_dir_source_prefixes db root)
      ↔ All (λ node. ¬ Holds root file node) db.nodes
unfolding node_dir_source_prefixes
node_dir_source_prefixes_iff db root file =
    Iff.trans (All-concat_map_iff _ _ db.nodes)
      (All-iff (λ node. dir_prefix_iff root file node node.source) db.nodes)

-- The source of the node is the file itself.
abbrev pub IsSourceOf : String → NodeRow → Type 0
IsSourceOf file node =
    OnOne
      (λ source. (is_blank source ≡ false) × (ends_with_code b'/' source ≡ false) × (source ≡ file))
      node.source

contains-false_iff :
    (xs : List String) (x : String) → (contains xs x ≡ false) ↔ All (λ y. (y == x) ≡ false) xs
contains-false_iff [] x = (λ _. tt, λ _. refl)
contains-false_iff (y ∷ xs) x =
    let rest = contains-false_iff xs x in
    (λ h. (ground (arith, h), rest.0 (ground (arith, h))), λ h. ground (arith, h.0, rest.1 h.1))

sources_iff :
    (file : String) (source : Option String)
    → All (λ s. (s == file) ≡ false) (sources source)
      ↔ ¬ OnOne (λ s. (is_blank s ≡ false) × (ends_with_code b'/' s ≡ false) × (s ≡ file)) source
sources_iff file none = (λ _ n. n, λ _. tt)
sources_iff file (some s) = let same = eq_iff s file in ground arith

-- A path is among the sources exactly when it is the source of a node.
pub node_source_paths_iff :
    (db : Database) (file : String)
    → (contains (node_source_paths db) file ≡ false) ↔ All (λ node. ¬ IsSourceOf file node) db.nodes
unfolding node_source_paths
node_source_paths_iff db file = Iff.trans (contains-false_iff (node_source_paths db) file) (
    Iff.trans (All-concat_map_iff _ _ db.nodes)
      (All-iff (λ node. sources_iff file node.source) db.nodes))

-- Some tally passes exactly when a path and a number do that the list has together.
Any-tally_iff :
    (Q : String → ℕ → Type 0) (files : List (String × Tally))
    → Any (λ (file : String × Tally). Q file.0 file.1.count) files ↔ (
        (path : String) × ((n : ℕ) × ((any_of (is_of path (λ tally. tally.count == n)) files ≡ true)
            × Q path n)))
Any-tally_iff Q [] = (λ h. absurd h, λ (_, (_, (h, _))). absurd (ground (arith, h)))
Any-tally_iff Q ((path, tally) ∷ files) =
    let rest = Any-tally_iff Q files in
    (
      λ o. elim o [
        | inl q ↦ (path, (tally.count, (ground (arith, beq_refl path), q)))
        | inr r ↦ (let (p, (n, (h, q))) = rest.0 r in (p, (n, (ground (arith, h), q))))
      ],
      λ (p, (n, (h, q))). elim (Bool-cases (is_of p (λ t. t.count == n) (path, tally))) [
        | inl e ↦ inl (
            subst (λ x. Q x tally.count) (sym ((eq_iff path p).0 (ground (arith, e))))
              (subst (λ m. Q p m) (ground (arith, e)) q))
        | inr e ↦ inr (rest.1 (p, (n, (ground (arith, h, e), q))))
      ],
    )

module _ {F : Type 0} (ext : Externals F) where
  -- The file of a domain has enough symbols and is not excluded.
  abbrev pub Survives : FeatureCandidateRule → String → ℕ → Type 0
  Survives rule file n =
      (ltb n rule.min_symbols ≡ false)
      × All (λ pattern. ext.fnmatch file pattern ≡ false) rule.exclude

  -- The file is in the directory, has a symbol that is annotated with the domain and none that is annotated with a
  -- feature, has enough symbols, and is not excluded.
  abbrev pub IsCandidate : Database → FeatureCandidateRule → String → String → String → Type 0
  IsCandidate db rule domain prefix file =
      (ext.like file (str_append prefix "%") ≡ true)
      × (has_row (is_domain domain) file db.code_symbols ≡ true)
      × (has_row (has_key "feature") file db.code_symbols ≡ false)
      × Survives rule file (symbols_of file db.code_symbols)

  pub candidate_files-Any_iff :
      (db : Database) (rule : FeatureCandidateRule) (domain prefix : String)
      → Any
          (λ (file : String × Tally). Survives rule file.0 file.1.count)
          (candidate_files ext db domain prefix)
        ↔ ((file : String) × IsCandidate db rule domain prefix file)
  candidate_files-Any_iff db rule domain prefix =
      Iff.trans (Any-tally_iff (Survives rule) (candidate_files ext db domain prefix)) (
        λ (file, (n, (h, s))).
            let found = candidate_files_iff ext db domain prefix file n in
            (
              file,
              (
                ground (arith, h, found),
                ground (arith, h, found),
                ground (arith, h, found),
                subst (λ m. Survives rule file m) (ground (arith, h, found)) s,
              ),
            ),
        λ (file, c).
            let n = symbols_of file db.code_symbols in
            let found = candidate_files_iff ext db domain prefix file n in
            (file, (n, (ground (arith, c.0, c.1, c.2, found), c.3))),
      )
