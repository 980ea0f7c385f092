-- ===== src/Contracts/Values.antt =====
-- contracts/contracts.go: the operations that only read their arguments: ADD, SUB, MUL, DIV,
-- COMPARE, REQUIRE, REVERT and RETURN.
use tc_node_validator_go.Base.{
  suc, ◌+◌, ◌-◌, ◌/◌, ◌%◌, ◌^◌, String, Bool, true, false, not, ◌||◌, Option, none, some, List, [],
  ◌∷◌, ℤ, pos, negsuc, ◌+ℤ◌, ◌-ℤ◌, ◌*ℤ◌, div_ℤ, pos_part, neg_part, str_eq, if◌then◌else◌, ◌==◌,
}
use tc_node_validator_go.Contracts.Data.{
  Arg, null, float, int, int64, text, bool, object, block, other, plain, too_few_args, wrong_type,
  not_numeric, division_by_zero, not_boolean, invalid_number, unknown_operator, failed_check,
  reverted, Reply, done, failed, panicked, Runtime, gas_cost_base, gas_cost_compute,
}

-- Go's `int` and `int64` wrap around at 64 bits.
unfoldable pub to_int64 : ℤ → ℤ
to_int64 z =
    pos ((pos_part z % 2 ^ 64 + (2 ^ 64 - neg_part z % 2 ^ 64) + 2 ^ 63) % 2 ^ 64) -ℤ pos (2 ^ 63)

abbrev is_zero : ℤ → Bool
is_zero z = pos_part z + neg_part z == 0

abbrev negated : ℤ → ℤ
negated z = pos 0 -ℤ z

-- Go's `/` on signed integers rounds towards 0.
unfoldable pub quotient : ℤ → ℤ → ℤ
quotient (pos a) (pos b) = pos (a / b)
quotient (pos a) (negsuc b) = negated (pos (a / suc b))
quotient (negsuc a) (pos b) = negated (pos (suc a / b))
quotient (negsuc a) (negsuc b) = pos (suc a / suc b)

-- `(*big.Int).Div`: Euclidean division, whose remainder is not negative.
unfoldable pub euclidean : ℤ → ℤ → ℤ
euclidean a (pos b) = div_ℤ a b
euclidean a (negsuc b) = negated (div_ℤ a (suc b))

-- An arithmetic operation on each type of number; `none` is a division by zero.
pub record Arithmetic (F : Type 0) : Type 0 where
  pub on_float : F → F → Option F
  pub on_int : ℤ → ℤ → Option ℤ
  pub on_big : ℤ → ℤ → Option ℤ

abbrev unless_zero : Bool → ℤ → Option ℤ
unless_zero true z = none
unless_zero false z = some z

module _ {F J : Type 0} (r : Runtime F J) where
  open r use {floats, float_eq, parse_float, parse_big, format_big, same}

  unfoldable additions : Arithmetic F
  additions = record {
    on_float = λ a b. some (floats.add a b);
    on_int = λ a b. some (to_int64 (a +ℤ b));
    on_big = λ a b. some (a +ℤ b);
  }

  unfoldable subtractions : Arithmetic F
  subtractions = record {
    on_float = λ a b. some (floats.sub a b);
    on_int = λ a b. some (to_int64 (a -ℤ b));
    on_big = λ a b. some (a -ℤ b);
  }

  unfoldable products : Arithmetic F
  products = record {
    on_float = λ a b. some (floats.mul a b);
    on_int = λ a b. some (to_int64 (a *ℤ b));
    on_big = λ a b. some (a *ℤ b);
  }

  unfoldable divisions : Arithmetic F
  divisions = record {
    on_float = λ a b. if float_eq b (floats.of_int (pos 0)) then none else some (floats.div a b);
    on_int = λ a b. unless_zero (is_zero b) (to_int64 (quotient a b));
    on_big = λ a b. unless_zero (is_zero b) (euclidean a b);
  }

  abbrev computed : {A : Type 0} → (A → Arg F J) → Option A → Reply F J
  computed wrap none = failed division_by_zero gas_cost_base
  computed wrap (some a) = done (plain (wrap a)) (gas_cost_base + gas_cost_compute)

  -- Two texts are numbers of any size.
  abbrev compute_big : Arithmetic F → String → String → Reply F J
  compute_big ops a b = elim (parse_big a) [
    | none ↦ failed (invalid_number a) gas_cost_base
    | some x ↦ elim (parse_big b) [
      | none ↦ failed (invalid_number b) gas_cost_base
      | some y ↦ computed (λ z. text (format_big z)) (ops.on_big x y)
    ]
  ]

  -- The body that ADD, SUB, MUL and DIV share.
  unfoldable pub compute : Arithmetic F → List (Arg F J) → Reply F J
  compute ops (float a ∷ float b ∷ rest) = computed float (ops.on_float a b)
  compute ops (int a ∷ int b ∷ rest) = computed int (ops.on_int a b)
  compute ops (int64 a ∷ int64 b ∷ rest) = computed int64 (ops.on_int a b)
  compute ops (text a ∷ text b ∷ rest) = compute_big ops a b
  compute ops (a ∷ b ∷ rest) = failed not_numeric gas_cost_base
  compute ops _ = failed too_few_args gas_cost_base

  unfoldable pub op_add : List (Arg F J) → Reply F J
  unfolding additions
  op_add args = compute additions args

  unfoldable pub op_sub : List (Arg F J) → Reply F J
  unfolding subtractions
  op_sub args = compute subtractions args

  unfoldable pub op_mul : List (Arg F J) → Reply F J
  unfolding products
  op_mul args = compute products args

  unfoldable pub op_div : List (Arg F J) → Reply F J
  unfolding divisions
  op_div args = compute divisions args

  unfoldable pub get_numeric_value : Arg F J → Option F
  get_numeric_value (int z) = some (floats.of_int z)
  get_numeric_value (int64 z) = some (floats.of_int z)
  get_numeric_value (float x) = some x
  get_numeric_value (text s) = parse_float s
  get_numeric_value _ = none

  abbrev same_bool : Bool → Bool → Bool
  same_bool true b = b
  same_bool false b = not b

  abbrev same_int : ℤ → ℤ → Bool
  same_int a b = pos_part a + neg_part b == pos_part b + neg_part a

  -- `==` on two `any` values: values of different types are different, and two maps or two slices
  -- are not comparable, which is a panic (`none`).
  unfoldable pub args_equal : Arg F J → Arg F J → Option Bool
  args_equal null null = some true
  args_equal (float a) (float b) = some (float_eq a b)
  args_equal (int a) (int b) = some (same_int a b)
  args_equal (int64 a) (int64 b) = some (same_int a b)
  args_equal (text a) (text b) = some (str_eq a b)
  args_equal (bool a) (bool b) = some (same_bool a b)
  args_equal (object a) (object b) = none
  args_equal (block a) (block b) = none
  args_equal (other a) (other b) = same a b
  args_equal _ _ = some false

  abbrev answered : Bool → Reply F J
  answered b = done (plain (bool b)) (gas_cost_base + gas_cost_compute)

  -- The fallbacks for texts and floats give what `==` gave already.
  unfoldable pub compare_equal : Arg F J → Arg F J → Reply F J
  compare_equal a b = elim (args_equal a b) [ none ↦ panicked | some e ↦ answered e ]

  unfoldable pub compare_numbers : String → F → F → Reply F J
  compare_numbers operator x y =
      if str_eq operator "<"
      then answered (floats.lt x y)
      else if str_eq operator "<="
      then answered (floats.le x y)
      else if str_eq operator ">"
      then answered (floats.lt y x)
      else if str_eq operator ">="
      then answered (floats.le y x)
      else if str_eq operator "!="
      then answered (not (float_eq x y))
      else failed (unknown_operator operator) (gas_cost_base + gas_cost_compute)

  abbrev pub compare_ordered : String → Option F → Option F → Reply F J
  compare_ordered operator (some x) (some y) = compare_numbers operator x y
  compare_ordered operator _ _ = failed not_numeric gas_cost_base

  unfoldable pub op_compare : List (Arg F J) → Reply F J
  unfolding compare_equal compare_numbers get_numeric_value
  op_compare (a ∷ b ∷ text operator ∷ rest) =
      if str_eq operator "==" || str_eq operator "equals"
      then compare_equal a b
      else compare_ordered operator (get_numeric_value a) (get_numeric_value b)
  op_compare (a ∷ b ∷ operator ∷ rest) = failed wrong_type gas_cost_base
  op_compare _ = failed too_few_args gas_cost_base

  -- The condition of REQUIRE and IF; `none` is a value that is no condition.
  unfoldable pub truth : Arg F J → Option Bool
  unfolding get_numeric_value
  truth (bool b) = some b
  truth (text s) = some (str_eq s "true")
  truth a = elim (get_numeric_value a) [
    | none ↦ none
    | some x ↦ some (not (float_eq x (floats.of_int (pos 0))))
  ]

  abbrev message_of : String → List (Arg F J) → String
  message_of default (text message ∷ rest) = message
  message_of default _ = default

  unfoldable pub op_require : List (Arg F J) → Reply F J
  op_require [] = failed too_few_args gas_cost_base
  op_require (condition ∷ rest) = elim (truth condition) [
    | none ↦ failed not_boolean gas_cost_base
    | some true ↦ done (plain (bool true)) gas_cost_base
    | some false ↦ failed (failed_check (message_of "requirement failed" rest)) gas_cost_base
  ]

  unfoldable pub op_revert : List (Arg F J) → Reply F J
  op_revert args = failed (reverted (message_of "execution reverted" args)) gas_cost_base

  unfoldable pub op_return : List (Arg F J) → Reply F J
  op_return [] = done (plain null) gas_cost_base
  op_return (a ∷ rest) = done (plain a) gas_cost_base
