-- ===== src/Context/Bundle.antt =====
-- What `build_context` of src/beadloom/context_oracle/builder.py puts around a subgraph: its test of the focus nodes,
-- `_collect_code_symbols` and `_check_sync_status`. Annotations are decoded already, and hold texts.
use Prim.Native.String.{◌++◌ as str_append}
use native.Mathlib.Omega.{arith}
use beadloom.Base.{
  ℕ, String, true, not, ◌&&◌, Option, none, some, List, [], ◌∷◌, if◌then◌else◌, ◌==◌,
  string_equality, pair_equality, contains, any_of, join, keep_if, map, All, ◌≡◌, refl, ◌↔◌,
  Bool-cases, inl, inr,
}
use beadloom.Context.Suggest.{suggest_ref_id}

abbrev hint : List String → String
hint [] = ""
hint (rid ∷ rids) = str_append " Did you mean: " (str_append (join ", " (rid ∷ rids)) "?")

-- the message of the `LookupError` for the first focus that is no node
unfoldable pub missing_focus : List String → List String → Option String
unfolding suggest_ref_id
missing_focus all_ids [] = none
missing_focus all_ids (rid ∷ rids) =
    let rest = missing_focus all_ids rids in
    if contains all_ids rid
    then rest
    else some (
        str_append "\""
          (str_append rid (str_append "\" not found." (hint (suggest_ref_id all_ids rid)))))

-- A row of `code_symbols`.
pub record SymbolInfo : Type 0 where
  pub file_path : String
  pub symbol_name : String
  pub annotations : List (String × String)
  pub kind : String
  pub line_start : ℕ
  pub line_end : ℕ

-- the loop of `_collect_code_symbols`
unfoldable pub collect_symbols :
    List String → List (String × String) → List SymbolInfo → List SymbolInfo
collect_symbols ref_ids seen [] = []
collect_symbols ref_ids seen (row ∷ rows) =
    let key : String × String = (row.file_path, row.symbol_name) in
    let kept = collect_symbols ref_ids (key ∷ seen) rows in
    let passed = collect_symbols ref_ids seen rows in
    if any_of (λ (a : String × String). contains ref_ids a.1) row.annotations
      && not (contains seen key)
    then row ∷ kept
    else passed

-- A row of `sync_state`.
pub record SyncInfo : Type 0 where
  pub ref_id : String
  pub doc_path : String
  pub code_path : String
  pub status : String

-- `_check_sync_status`
unfoldable pub check_sync_status : List String → List SyncInfo → List (String × String)
check_sync_status ref_ids rows =
    map (λ (row : SyncInfo). (row.doc_path, row.code_path))
      (keep_if (λ (row : SyncInfo). contains ref_ids row.ref_id && (row.status == "stale")) rows)

-- There is no error exactly when every focus is a node.
pub missing_focus-eq-none_iff :
    (all_ids rids : List String)
    → (missing_focus all_ids rids ≡ none) ↔ All (λ rid. contains all_ids rid ≡ true) rids
unfolding missing_focus
missing_focus-eq-none_iff all_ids [] = (λ _. tt, λ _. refl)
missing_focus-eq-none_iff all_ids (rid ∷ rids) =
    let rest = missing_focus-eq-none_iff all_ids rids in
    elim (Bool-cases (contains all_ids rid)) [
      | inl e ↦ rw e (λ h. (refl, rest.0 h), λ h. rest.1 h.1)
      | inr e ↦ rw e (λ h. absurd (ground (arith, h)), λ h. absurd (ground (arith, h.0)))
    ]
