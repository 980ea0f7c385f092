-- ===== src/Currency/Tests.antt =====
-- Runs of the currency methods on small managers, and the currency theorems at concrete inputs.
use tc_node_validator_go.Base.{
  panic, ◌⊎◌, String, ◌≡◌, ◌≢◌, refl, true, false, none, some, List, [], ◌∷◌, ℤ, pos, ◌+ℤ◌, ◌-ℤ◌,
  ◌*ℤ◌, ◌≤ℤ◌, ltb_ℤ, leb_ℤ, if◌then◌else◌, ok, deadlock, lookup, adjust, div_ℤ, sum_by, arith,
  str_eq, FloatOps, ◌*◌, ◌+◌, ◌/◌, ◌^◌, ◌++◌, ◌==◌, negsuc, Option,
}
use tc_node_validator_go.Currency.State.{Account, CurrencyManager, initial_supply, trip_coin}
use tc_node_validator_go.Currency.Manager.{
  get_balance, fresh_account, transfer_funds, burn_tokens, distribute_fees,
}
use tc_node_validator_go.Currency.Lock.{credit}
use tc_node_validator_go.Currency.Staking.{stake_tokens, unstake_tokens}
use tc_node_validator_go.Currency.Branches.{stake_ready}
use tc_node_validator_go.Currency.Stakes.{restored, unstake_tokens-stake_tokens}
use tc_node_validator_go.Currency.Setup.{init_native_token, reserved_address}
use tc_node_validator_go.Currency.Genesis.{init_native_token_lem}
use tc_node_validator_go.Currency.Solvency.{holdings, IsBacked, IsSolvent}
use tc_node_validator_go.Currency.Transfer.{
  SameFunds, allowed, settled, transfer_settles, transfer_refused, transfer_to_new_blocks,
}
use tc_node_validator_go.Currency.Fees.{account_or_new, distribute_fees_unbacked}
use tc_node_validator_go.Currency.Ledger.{
  Request, transfer, burn, reward, stake, serve_all, serve_all-IsBacked,
}
use tc_node_validator_go.Currency.Text.{
  Bytes, codes, TextJson, decimal_digits, decimal_text, int_text, mod_ℤ, with_leading_zeros,
  pad_left, trim_zeros, keep_digit, trip_coin_string, marshal_json, unmarshal_json,
}
use tc_node_validator_go.Currency.Printing.{unmarshal_json-marshal_json}
use tc_node_validator_go.Currency.Fraction.{quarks, IsPrinted, quarks-trip_coin_string}
use tc_node_validator_go.Currency.Gas.{update_network_gas_price, gas_price_floor}

abbrev holder : String → ℤ → Account
holder address balance = record (fresh_account address (some (pos 10)) "t0") { balance = balance }

abbrev bank : CurrencyManager
bank = record {
  symbol = "";
  genesis_allocated = false;
  accounts = ("ana", holder "ana" (pos 500)) ∷ ("bob", holder "bob" (pos 20)) ∷ [];
  total_supply = pos 545;
  mutex = false;
  reserved_funds = pos 5;
  gas_parameters = record {
    min_gas_price = pos 1;
    network_gas_price = pos 20;
    last_updated = "t0";
  };
}

transfer_runs : (transfer_funds "ana" "bob" (pos 30) "t1" bank).0 ≡ ok tt
unfolding transfer_funds lookup adjust ◌+ℤ◌ ◌-ℤ◌
transfer_runs = refl

transfer_deadlocks : (transfer_funds "ana" "eve" (pos 30) "t1" bank).0 ≡ deadlock
unfolding transfer_funds lookup adjust ◌+ℤ◌ ◌-ℤ◌
transfer_deadlocks = refl

burn_runs : (burn_tokens "ana" (pos 2) "t1" bank).0 ≡ ok (pos 5)
unfolding burn_tokens lookup adjust ◌+ℤ◌ ◌-ℤ◌ div_ℤ
burn_runs = refl

bank-IsBacked : IsBacked bank
unfolding holdings sum_by ◌+ℤ◌
bank-IsBacked = refl

bank-IsSolvent : IsSolvent bank
bank-IsSolvent = ((omega arith, omega arith), ((omega arith, omega arith), tt))

abbrev requests : List Request
requests =
    transfer "ana" "bob" (pos 30) "t1"
    ∷ burn "bob" (pos 4) "t2"
    ∷ reward "eve" "t3"
    ∷ stake "ana" (pos 9) "t4"
    ∷ []

serve_all-IsBacked_example :
    IsBacked (serve_all requests bank) × IsSolvent (serve_all requests bank)
serve_all-IsBacked_example = serve_all-IsBacked requests bank bank-IsBacked bank-IsSolvent

transfer_settles_example :
    let (r, cm') = transfer_funds "ana" "bob" (pos 30) "t1" bank in
    (r ≡ ok tt)
    × (cm'.mutex ≡ false)
    × (cm'.total_supply ≡ pos 545)
    × (cm'.reserved_funds ≡ pos 5)
    × ((who : String)
        → lookup who cm'.accounts ≡ elim (lookup who bank.accounts) [
          | none ↦ none
          | some a ↦ some (settled (str_eq "ana" who) (str_eq "bob" who) (pos 30) "t1" a)
        ])
unfolding allowed lookup
transfer_settles_example = transfer_settles "ana" "bob" (pos 30) "t1" bank refl

transfer_refused_example :
    SameFunds bank (transfer_funds "bob" "ana" (pos 30) "t1" bank).1
    × ((transfer_funds "bob" "ana" (pos 30) "t1" bank).0 ≢ ok tt)
unfolding allowed lookup
transfer_refused_example = transfer_refused "bob" "ana" (pos 30) "t1" bank refl

transfer_to_new_blocks_example :
    transfer_funds "ana" "eve" (pos 30) "t1" bank ≡ (deadlock, record bank { mutex = true })
unfolding lookup
transfer_to_new_blocks_example =
    transfer_to_new_blocks "ana" "eve" (pos 30) "t1" bank (holder "ana" (pos 500)) refl
      (omega arith) refl refl (omega arith) refl

distribute_fees_unbacked_example :
    let (r, cm') = distribute_fees (pos 10) "ana" "t1" bank in
    let share = div_ℤ (pos 10 *ℤ pos 70) 100 in
    (r ≡ ok tt)
    × (cm'.mutex ≡ false)
    × (cm'.total_supply ≡ pos 545 -ℤ (pos 10 -ℤ share))
    × ((who : String)
        → lookup who cm'.accounts ≡ (
            if str_eq "ana" who
            then some (credit share (account_or_new "ana" "t1" bank))
            else lookup who bank.accounts))
    × (cm'.total_supply +ℤ holdings bank +ℤ pos 10 ≡ pos 545 +ℤ holdings cm')
distribute_fees_unbacked_example = distribute_fees_unbacked (pos 10) "ana" "t1" bank refl

-- Thousandths of a price, as whole numbers.
abbrev pub thousandths : FloatOps ℤ
thousandths = record {
  add = λ a b. a +ℤ b;
  sub = λ a b. a -ℤ b;
  mul = λ a b. div_ℤ (a *ℤ b) 1000;
  div = λ a b. a;
  lt = λ a b. ltb_ℤ a b;
  le = λ a b. leb_ℤ a b;
  of_int = λ a. a *ℤ pos 1000;
  decimal = λ n k. div_ℤ (pos (n * 1000)) (10 ^ k);
  scale = λ a b. some (div_ℤ (a *ℤ b) 1000);
}

gas_price_floor_example :
    let (r, cm') = update_network_gas_price thousandths (pos 900) "t1" bank in
    let price = cm'.gas_parameters.network_gas_price in
    let wanted =
      thousandths.scale bank.gas_parameters.network_gas_price
        (pos 1000 +ℤ div_ℤ ((pos 900 -ℤ pos 500) *ℤ pos 125) 1000) in
    (cm'.mutex ≡ false)
    × SameFunds bank cm'
    × (cm'.gas_parameters.min_gas_price ≡ pos 1)
    × (((wanted ≡ none) × (r ≡ panic) × (price ≡ bank.gas_parameters.network_gas_price))
        ⊎ ((product : ℤ) × (wanted ≡ some product)
            × (r ≡ ok tt)
            × (pos 1 ≤ℤ price)
            × (((pos 1 ≤ℤ product) × (price ≡ product))
                ⊎ ((ltb_ℤ product (pos 1) ≡ true) × (price ≡ pos 1)))))
unfolding div_ℤ
gas_price_floor_example = gas_price_floor thousandths (pos 900) "t1" bank refl

unstake_tokens-stake_tokens_example :
    let (r, cm') = stake_tokens "ana" (pos 9) "t1" bank in
    let (r', cm'') = unstake_tokens "ana" (pos 9) "t2" cm' in
    (r ≡ ok tt)
    × (r' ≡ ok tt)
    × (cm''.total_supply ≡ pos 545)
    × (cm''.reserved_funds ≡ pos 5)
    × ((who : String)
        → lookup who cm''.accounts ≡ elim (lookup who bank.accounts) [
          | none ↦ none
          | some b ↦ some (if str_eq "ana" who then restored "t2" b else b)
        ])
unfolding stake_ready lookup
unstake_tokens-stake_tokens_example =
    unstake_tokens-stake_tokens "ana" (pos 9) "t1" "t2" bank (holder "ana" (pos 500)) refl refl
      (omega arith)

init_native_token_lem_example :
    let (r, cm) = init_native_token (pos 100000000) "t0" in
    (r ≡ ok tt)
    × (cm.mutex ≡ false)
    × (cm.total_supply ≡ pos (initial_supply + 100000000 * trip_coin))
    × ((get_balance reserved_address cm).0 ≡ ok (pos (100000000 * trip_coin * 5 / 100)))
init_native_token_lem_example = init_native_token_lem 100000000 "t0" (omega arith)

-- The bytes before the closing quote, which ends the text.
unfoldable unquoted : Bytes → Option Bytes
unquoted [] = none
unquoted (c ∷ []) = if c == b'"' then some [] else none
unquoted (c ∷ d ∷ s) = elim (unquoted (d ∷ s)) [ none ↦ none | some t ↦ some (c ∷ t) ]

abbrev opened : Bytes → Option Bytes
opened [] = none
opened (c ∷ s) = if c == b'"' then unquoted s else none

-- A JSON that puts quotes around a text.
abbrev quoting : TextJson
quoting = record { marshal_text = λ s. b'"' ∷ (s ++ b'"' ∷ []); unmarshal_text = opened }

unquoted-append : (s : Bytes) → unquoted (s ++ b'"' ∷ []) ≡ some s
unfolding unquoted
unquoted-append [] = refl
unquoted-append (c ∷ []) = refl
unquoted-append (c ∷ d ∷ s) = rw (unquoted-append (d ∷ s)) refl

unmarshal_json-marshal_json_example :
    (unmarshal_json quoting (marshal_json quoting (some (negsuc 41))) (some none)
      ≡ (ok tt, some (some (negsuc 41))))
    × (unmarshal_json quoting (marshal_json quoting (some (negsuc 41))) none ≡ (panic, none))
unmarshal_json-marshal_json_example =
    unmarshal_json-marshal_json quoting (λ s _. unquoted-append s) (some (negsuc 41)) none

prints_a_half : trip_coin_string (some (pos 1500000000000000000)) ≡ codes "1.5 TCC"
unfolding trip_coin_string int_text decimal_text decimal_digits mod_ℤ div_ℤ with_leading_zeros
    pad_left trim_zeros keep_digit
prints_a_half = refl

-- A negative balance of one quark reads as almost two coins.
prints_minus_one_quark : trip_coin_string (some (negsuc 0)) ≡ codes "-1.999999999999999999 TCC"
unfolding trip_coin_string int_text decimal_text decimal_digits mod_ℤ div_ℤ with_leading_zeros
    pad_left trim_zeros keep_digit
prints_minus_one_quark = refl

quarks-trip_coin_string_example :
    (quarks 0 (trip_coin_string (some (pos 1500000000000000000))) ≡ 1500000000000000000)
    × IsPrinted 1500000000000000000 (trip_coin_string (some (pos 1500000000000000000)))
quarks-trip_coin_string_example = quarks-trip_coin_string 1500000000000000000
