-- ===== src/Base/TextOrder.antt =====
-- The order of Python's `str`, by code points, is a strict total order.
use Prim.Native.Nat.{Ordering}
use Prim.Native.String.{String, compare}
use Prim.Native.String.compare
use mathlib.Core.Path.{◌≡◌}
use mathlib.Core.Logic.{◌↔◌}
use native.Mathlib.Omega.{arith}

pub compare-lt_trans :
    (a b c : String)
    → compare a b ≡ Ordering.lt
    → compare b c ≡ Ordering.lt
    → compare a c ≡ Ordering.lt
compare-lt_trans String.[] String.[] c p q = ground (arith, compare.nil-nil)
compare-lt_trans String.[] (String.◌∷◌ y t) String.[] p q = ground (arith, compare.cons-nil y t)
compare-lt_trans String.[] b (String.◌∷◌ z u) p q = compare.nil-cons z u
compare-lt_trans (String.◌∷◌ x s) String.[] c p q = ground (arith, compare.cons-nil x s)
compare-lt_trans (String.◌∷◌ x s) (String.◌∷◌ y t) String.[] p q =
    ground (arith, compare.cons-nil y t)
compare-lt_trans (String.◌∷◌ x s) (String.◌∷◌ y t) (String.◌∷◌ z u) p q = ground (
  arith,
  compare.cons-cons x y s t,
  compare.cons-cons y z t u,
  compare.cons-cons x z s u,
  compare-lt_trans s t u,
)

pub compare-gt_iff : (a b : String) → (compare a b ≡ Ordering.gt) ↔ (compare b a ≡ Ordering.lt)
compare-gt_iff String.[] String.[] = ground (arith, compare.nil-nil)
compare-gt_iff String.[] (String.◌∷◌ y t) =
    ground (arith, compare.nil-cons y t, compare.cons-nil y t)
compare-gt_iff (String.◌∷◌ x s) String.[] =
    ground (arith, compare.nil-cons x s, compare.cons-nil x s)
compare-gt_iff (String.◌∷◌ x s) (String.◌∷◌ y t) =
    ground (arith, compare.cons-cons x y s t, compare.cons-cons y x t s, compare-gt_iff s t)
