-- ===== src/Contracts/Nesting.antt =====
-- How deep the blocks of IF are nested in operations that hold no CALL, and which of the operations
-- that can end in no answer they hold.
use tc_node_validator_go.Base.{
  ℕ, zero, suc, String, ◌≡◌, refl, ◌∙◌, Bool, true, false, not, ◌&&◌, ◌||◌, List, [], ◌∷◌, str_eq,
  arith,
}
use tc_node_validator_go.Contracts.Data.{
  Arg, block, Args, no_args, arg, arg_list, ContractOperation, operation, Ops, no_ops, op, op_list,
}

-- Which operations are allowed: those that can wait for a lock (TRANSFER), and those that can panic
-- (COMPARE and NATIVE_CALL).
pub record Risks : Type 0 where
  pub transfers : Bool
  pub panics : Bool

-- What an operation's code may be.
unfoldable pub allows : Risks → String → Bool
allows risks code =
    not (str_eq code "CALL")
    && ((risks.transfers || not (str_eq code "TRANSFER"))
        && ((risks.panics || not (str_eq code "COMPARE"))
            && (risks.panics || not (str_eq code "NATIVE_CALL"))))

both_true : (a b : Bool) → (a && b) ≡ true → (a ≡ true) × (b ≡ true)
both_true true b h = (refl, h)
both_true false b h = cc

unless_risky : (a b : Bool) → (a || not b) ≡ true → b ≡ true → a ≡ true
unless_risky true b h e = refl
unless_risky false b h e = cc

abbrev pub Allowed : Risks → String → Type 0
Allowed risks code =
    (str_eq code "CALL" ≡ false)
    × (str_eq code "TRANSFER" ≡ true → risks.transfers ≡ true)
    × (str_eq code "COMPARE" ≡ true → risks.panics ≡ true)
    × (str_eq code "NATIVE_CALL" ≡ true → risks.panics ≡ true)

eq_false_of_not : (b : Bool) → not b ≡ true → b ≡ false
eq_false_of_not true h = cc
eq_false_of_not false h = refl

allows-Allowed : (risks : Risks) (code : String) → allows risks code ≡ true → Allowed risks code
unfolding allows
allows-Allowed risks code h =
    let (no_call, rest) = both_true _ _ h in
    let (transfers_, others) = both_true _ _ rest in
    let (compares, natives) = both_true _ _ others in
    (
      eq_false_of_not _ no_call,
      unless_risky _ _ transfers_,
      unless_risky _ _ compares,
      unless_risky _ _ natives,
    )

-- Operations with no CALL, with the others as allowed, whose blocks are nested at most `depth` deep.
unfoldable mutual
  pub fits_arg : {F J : Type 0} → Risks → ℕ → Arg F J → Bool
  fits_arg risks zero (block ops) = false
  fits_arg risks (suc depth) (block ops) = fits_ops risks depth ops
  fits_arg risks depth a = true

  pub fits_args : {F J : Type 0} → Risks → ℕ → Args F J → Bool
  fits_args risks depth no_args = true
  fits_args risks depth (arg a rest) = fits_arg risks depth a && fits_args risks depth rest

  pub fits_op : {F J : Type 0} → Risks → ℕ → ContractOperation F J → Bool
  fits_op risks depth (operation code args auth) = allows risks code && fits_args risks depth args

  pub fits_ops : {F J : Type 0} → Risks → ℕ → Ops F J → Bool
  fits_ops risks depth no_ops = true
  fits_ops risks depth (op o rest) = fits_op risks depth o && fits_ops risks depth rest

module _ {F J : Type 0} where
  unfoldable pub all_fit : Risks → ℕ → List (ContractOperation F J) → Bool
  all_fit risks depth [] = true
  all_fit risks depth (o ∷ rest) = fits_op risks depth o && all_fit risks depth rest

  unfoldable pub args_fit : Risks → ℕ → List (Arg F J) → Bool
  args_fit risks depth [] = true
  args_fit risks depth (a ∷ rest) = fits_arg risks depth a && args_fit risks depth rest

  pub all_fit-op_list :
      (risks : Risks) (depth : ℕ) (ops : Ops F J)
      → all_fit risks depth (op_list ops) ≡ fits_ops risks depth ops
  unfolding all_fit op_list fits_ops
  all_fit-op_list risks depth no_ops = cc
  all_fit-op_list risks depth (op o rest) = ground (arith, all_fit-op_list risks depth rest)

  pub args_fit-arg_list :
      (risks : Risks) (depth : ℕ) (args : Args F J)
      → args_fit risks depth (arg_list args) ≡ fits_args risks depth args
  unfolding args_fit arg_list fits_args
  args_fit-arg_list risks depth no_args = cc
  args_fit-arg_list risks depth (arg a rest) = ground (arith, args_fit-arg_list risks depth rest)

  pub fits_op_parts :
      (risks : Risks) (depth : ℕ) (code : String) (args : Args F J) (auth : Bool)
      → fits_op risks depth (operation code args auth) ≡ true
      → Allowed risks code × (args_fit risks depth (arg_list args) ≡ true)
  unfolding fits_op
  fits_op_parts risks depth code args auth h =
      let (allowed, fits) = both_true (allows risks code) (fits_args risks depth args) h in
      (allows-Allowed risks code allowed, args_fit-arg_list risks depth args ∙ fits)

  pub no_block-fits : (risks : Risks) (ops : Ops F J) → fits_arg risks 0 (block ops) ≡ true → ⊥
  unfolding fits_arg
  no_block-fits risks ops h = cc

  pub block-fits :
      (risks : Risks) (depth : ℕ) (ops : Ops F J)
      → fits_arg risks (suc depth) (block ops) ≡ true
      → all_fit risks depth (op_list ops) ≡ true
  unfolding fits_arg
  block-fits risks depth ops h = all_fit-op_list risks depth ops ∙ h
