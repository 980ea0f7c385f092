-- ===== src/Base/Floats.antt =====
-- What the source uses of `float64` and of `big.Float`: an interface, with the order's laws apart.
use mathlib.Core.Path.{◌≡◌}
use mathlib.Core.Bool.{Bool, true, false, ◌||◌}
use mathlib.Core.Option.{Option}
use Prim.Native.Nat.{ℕ}
use tc_node_validator_go.Base.Int.{ℤ}

-- `decimal n k` is the double nearest to n / 10^k; `scale z x` is the `big.Float` product of an
-- integer and a double, cut to an integer: `none` where there is none, for a NaN (`SetFloat64`
-- panics) and for an infinite factor (0 times it panics, and any other product has a nil `Int`).
pub record FloatOps (F : Type 0) : Type 0 where
  pub add : F → F → F
  pub sub : F → F → F
  pub mul : F → F → F
  pub div : F → F → F
  pub lt : F → F → Bool
  pub le : F → F → Bool
  pub of_int : ℤ → F
  pub decimal : ℕ → ℕ → F
  pub scale : ℤ → F → Option ℤ

-- `<` on the doubles that are no NaN: a strict order in which incomparable values are alike.
pub record IsOrdered {F : Type 0} (f : FloatOps F) : Type 0 where
  pub lt_irrefl : (x : F) → f.lt x x ≡ false
  pub lt_asym : (x y : F) → f.lt x y ≡ true → f.lt y x ≡ false
  pub lt_cotrans : (x y z : F) → f.lt x z ≡ true → (f.lt x y || f.lt y z) ≡ true
