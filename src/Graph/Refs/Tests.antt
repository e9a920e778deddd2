-- ===== src/Graph/Refs/Tests.antt =====
-- References at work, and the theorems at them.
use beadloom.Base.{String, Option, none, some, ◌≡◌, ◌↔◌, refl}
use beadloom.Graph.Refs.{
  FederatedRef, parse_ref, ok, err, malformed_ref, qualified, qualify, resolve_endpoint,
}
use beadloom.Graph.Refs.RoundTrip.{IsValid, parse_ref_iff, resolve_endpoint_idem}

abbrev orders_api : FederatedRef
orders_api = record { repo = some "orders"; ref_id = "api" }

parse_foreign : parse_ref "@orders:api" ≡ ok orders_api
unfolding parse_ref beadloom.Base.partition beadloom.Base.drop_first beadloom.Base.is_blank
parse_foreign = refl

parse_unnamed : parse_ref "@orders:" ≡ err malformed_ref
unfolding parse_ref beadloom.Base.partition beadloom.Base.drop_first beadloom.Base.is_blank
parse_unnamed = refl

resolve_local : resolve_endpoint "orders" "api" ≡ "@orders:api"
unfolding resolve_endpoint parse_ref beadloom.Base.is_blank
resolve_local = refl

parse_ref_iff_example :
    (parse_ref "@orders:api" ≡ ok orders_api)
    ↔ (IsValid orders_api × (qualified orders_api ≡ "@orders:api"))
parse_ref_iff_example = parse_ref_iff "@orders:api" orders_api

resolve_endpoint_idem_example :
    resolve_endpoint "billing" (resolve_endpoint "orders" "api") ≡ resolve_endpoint "orders" "api"
unfolding beadloom.Base.is_blank beadloom.Graph.Refs.RoundTrip.has_code
resolve_endpoint_idem_example = resolve_endpoint_idem "orders" "billing" "api" (refl, refl)
