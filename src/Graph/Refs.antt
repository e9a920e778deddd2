-- ===== src/Graph/Refs.antt =====
-- src/beadloom/graph/federation/refs.py: references of the form `@<repo>:<ref_id>`, and what
-- federation/reconcile.py makes of an endpoint.
pub mod RoundTrip
mod Tests
use Prim.Native.String.{◌++◌}
use beadloom.Base.{
  String, Bool, true, false, not, ◌||◌, Option, none, some, if◌then◌else◌, is_blank,
  starts_with_code, drop_first, partition,
}

-- `FederatedRef`
pub record FederatedRef : Type 0 where
  pub repo : Option String
  pub ref_id : String

-- `FederationRefError`, by the two places that raise it
pub data RefError : Type 0 where
  empty_ref malformed_ref : RefError

pub data Parsed : Type 0 where
  ok : FederatedRef → Parsed
  err : RefError → Parsed

-- `FederatedRef.qualified`
unfoldable pub qualify : Option String → String → String
qualify none ref_id = ref_id
qualify (some repo) ref_id = "@" ++ (repo ++ (":" ++ ref_id))

unfoldable pub qualified : FederatedRef → String
unfolding qualify
qualified r = qualify r.repo r.ref_id

-- `FederatedRef.is_foreign`
abbrev pub is_foreign : FederatedRef → Bool
is_foreign r = elim r.repo [ none ↦ false | some _ ↦ true ]

-- `is_foreign_ref`
unfoldable pub is_foreign_ref : String → Bool
unfolding starts_with_code
is_foreign_ref raw = starts_with_code b'@' raw

-- the end of `parse_ref`, from what `partition` gives
unfoldable pub foreign_ref : String → Option String → Parsed
foreign_ref repo none = err malformed_ref
foreign_ref repo (some ref_id) =
    if is_blank repo || is_blank ref_id
    then err malformed_ref
    else ok (record { repo = some repo; ref_id = ref_id })

-- `parse_ref`
unfoldable pub parse_ref : String → Parsed
unfolding foreign_ref is_foreign_ref
parse_ref raw =
    if not (is_foreign_ref raw)
    then (if is_blank raw then err empty_ref else ok (record { repo = none; ref_id = raw }))
    else (let (repo, ref_id) = partition b':' (drop_first raw) in foreign_ref repo ref_id)

-- `_namespace` of reconcile.py
unfoldable pub namespace : String → String → String
namespace repo ref_id = "@" ++ (repo ++ (":" ++ ref_id))

-- `_resolve_endpoint` of reconcile.py, from what `parse_ref` gives
unfoldable pub resolve_parsed : String → String → Parsed → String
unfolding qualified namespace
resolve_parsed repo raw (err _) = raw
resolve_parsed repo raw (ok r) = if is_foreign r then qualified r else namespace repo r.ref_id

unfoldable pub resolve_endpoint : String → String → String
unfolding resolve_parsed
resolve_endpoint repo raw = resolve_parsed repo raw (parse_ref raw)
