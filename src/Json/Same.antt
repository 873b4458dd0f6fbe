-- ===== src/Json/Same.antt =====
-- Python's `==` on JSON values: `True == 1 == 1.0`, and `dict` without regard to order.
use dfine_cpp.Common.{Bool, true, false, text_eq, ◌&&◌, ◌==◌}
use dfine_cpp.Common.Int.{ℤ, pos, eqb_ℤ}
use dfine_cpp.Json.{
  Real, finite, Value, Items, Fields, null, boolean, integer, real, text, array, object, nil, item,
  empty, field, get, has_key, size,
}
use dfine_cpp.Json.Number.{scaled, eqb_real}

abbrev pub bit : Bool → ℤ
bit false = pos 0
bit true = pos 1

abbrev same_int : ℤ → Value → Bool
same_int a (boolean b) = eqb_ℤ a (bit b)
same_int a (integer b) = eqb_ℤ a b
same_int a (real r) = eqb_real (finite (scaled a)) r
same_int _ _ = false

abbrev same_real : Real → Value → Bool
same_real a (boolean b) = eqb_real a (finite (scaled (bit b)))
same_real a (integer b) = eqb_real a (finite (scaled b))
same_real a (real b) = eqb_real a b
same_real _ _ = false

unfoldable mutual
  pub same : Value → Value → Bool
  same null null = true
  same (boolean b) w = same_int (bit b) w
  same (integer a) w = same_int a w
  same (real a) w = same_real a w
  same (text s) (text t) = text_eq s t
  same (array xs) (array ys) = same_items xs ys
  same (object fs) (object gs) = (size fs == size gs) && same_fields fs gs
  same _ _ = false

  pub same_items : Items → Items → Bool
  same_items nil nil = true
  same_items (item v xs) (item w ys) = same v w && same_items xs ys
  same_items _ _ = false

  -- Every key of the first stands in the second with the same value.
  pub same_fields : Fields → Fields → Bool
  same_fields empty gs = true
  same_fields (field k v fs) gs = has_key k gs && (same v (get k gs) && same_fields fs gs)
