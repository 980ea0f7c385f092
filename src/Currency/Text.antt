-- ===== src/Currency/Text.antt =====
-- currency/currency.go: balances as text and in JSON, and their arithmetic with nil. A text is the
-- list of its bytes.
use Prim.Native.Char.{code}
use tc_node_validator_go.Base.{
  ℕ, zero, suc, ◌+◌, ◌-◌, ◌*◌, ◌/◌, ◌%◌, String, true, false, ◌||◌, Option, none, some, List, [],
  ◌∷◌, ◌++◌, length, ℤ, pos, negsuc, ◌+ℤ◌, ◌-ℤ◌, ◌*ℤ◌, div_ℤ, ltb, ◌==◌, if◌then◌else◌, ok, err,
  panic, Outcome, Action,
}
use tc_node_validator_go.Currency.State.{trip_coin}

abbrev pub Bytes : Type 0
Bytes = List ℕ

-- The bytes of a text in ASCII.
abbrev pub codes : String → Bytes
codes String.[] = []
codes (String.◌∷◌ c s) = code c ∷ codes s

-- A `*Balance` that is read: `none` is a nil pointer, and a balance whose `Int` is nil. Where a
-- method writes through the pointer, the two are told apart (`UnmarshalJSON`).
abbrev pub Balance : Type 0
Balance = Option ℤ

unfoldable new_balance : ℤ → Balance
new_balance amount = some amount

unfoldable new_balance_from_big_int : Option ℤ → Balance
new_balance_from_big_int none = some (pos 0)
new_balance_from_big_int (some n) = some n

-- The decimal digits of a number; every step takes one off.
unfoldable pub decimal_digits : ℕ → ℕ → Bytes
decimal_digits zero n = []
decimal_digits (suc fuel) n = elim (ltb n 10) [
  | true ↦ (b'0' + n) ∷ []
  | false ↦ decimal_digits fuel (n / 10) ++ (b'0' + n % 10) ∷ []
]

unfoldable pub decimal_text : ℕ → Bytes
unfolding decimal_digits
decimal_text n = decimal_digits (suc n) n

-- `(*big.Int).String`
unfoldable pub int_text : ℤ → Bytes
int_text (pos n) = decimal_text n
int_text (negsuc n) = b'-' ∷ decimal_text (suc n)

-- The digits of `SetString` in base 10.
unfoldable pub scan_digits : Bytes → ℕ → Option ℕ
scan_digits [] n = some n
scan_digits (c ∷ s) n =
    let rest = scan_digits s (n * 10 + (c - b'0')) in
    if ltb c b'0' || ltb b'9' c then none else rest

-- At least one digit.
abbrev pub scan_nat : Bytes → Option ℕ
scan_nat [] = none
scan_nat (c ∷ s) = scan_digits (c ∷ s) 0

abbrev pub negated : ℕ → ℤ
negated zero = pos 0
negated (suc n) = negsuc n

abbrev pub signed : (ℕ → ℤ) → Option ℕ → Option ℤ
signed sign none = none
signed sign (some n) = some (sign n)

-- `SetString`: a sign may stand in front; the failure is the error.
unfoldable pub new_balance_from_string : Bytes → Option ℤ
unfolding scan_digits
new_balance_from_string [] = none
new_balance_from_string (c ∷ s) =
    if c == b'-'
    then signed negated (scan_nat s)
    else if c == b'+'
    then signed pos (scan_nat s)
    else signed pos (scan_digits (c ∷ s) 0)

unfoldable pub string : Balance → Bytes
unfolding int_text
string none = codes "0"
string (some n) = int_text n

-- `(*big.Int).Mod` by a positive number: what `Div`, which rounds down, leaves.
unfoldable pub mod_ℤ : ℤ → ℕ → ℕ
mod_ℤ (pos n) d = n % d
mod_ℤ (negsuc n) d = d - 1 - n % d

abbrev pub tcc_decimals : ℕ
tcc_decimals = 18

-- `s = "0" + s`, a number of times.
unfoldable pub pad_left : ℕ → Bytes → Bytes
pad_left zero s = s
pad_left (suc k) s = pad_left k (b'0' ∷ s)

-- The loop runs until the text has `tcc_decimals` bytes.
unfoldable pub with_leading_zeros : Bytes → Bytes
unfolding pad_left
with_leading_zeros s = pad_left (tcc_decimals - length s) s

-- A byte in front of what is left of the rest: a zero goes when nothing is left behind it.
unfoldable pub keep_digit : ℕ → Bytes → Bytes
keep_digit c [] = if c == b'0' then [] else c ∷ []
keep_digit c (d ∷ s) = c ∷ d ∷ s

-- The loop that cuts zeros off the end. It runs on the digits of a number other than 0, so that the
-- source's index stays in range.
unfoldable pub trim_zeros : Bytes → Bytes
trim_zeros [] = []
trim_zeros (c ∷ s) = keep_digit c (trim_zeros s)

unfoldable pub trip_coin_string : Balance → Bytes
trip_coin_string none = codes "0 TCC"
trip_coin_string (some wei) =
    let trip_coin_part = int_text (div_ℤ wei trip_coin) in
    let wei_part = mod_ℤ wei trip_coin in
    if wei_part == 0
    then trip_coin_part ++ codes " TCC"
    else trip_coin_part
      ++ (b'.' ∷ (trim_zeros (with_leading_zeros (decimal_text wei_part)) ++ codes " TCC"))

-- `Add`, `Sub` and `Mul`: a nil operand is looked at first, and a nil receiver then panics (`none`).
unfoldable add : Balance → Balance → Option Balance
add b none = some b
add none (some m) = none
add (some n) (some m) = some (some (n +ℤ m))

unfoldable sub : Balance → Balance → Option Balance
sub b none = some b
sub none (some m) = none
sub (some n) (some m) = some (some (n -ℤ m))

unfoldable mul : Balance → Balance → Option Balance
mul b none = some (some (pos 0))
mul none (some m) = none
mul (some n) (some m) = some (some (n *ℤ m))

-- `Div` panics on a nil and on a zero divisor.
unfoldable div : Balance → Balance → Option Balance
div b none = none
div none (some m) = none
div (some n) (some (pos zero)) = none
div (some n) (some (pos (suc d))) = some (some (div_ℤ n (suc d)))
div (some n) (some (negsuc d)) = some (some (pos 0 -ℤ div_ℤ n (suc d)))

-- `json.Marshal` of a string, and `json.Unmarshal` into one.
pub record TextJson : Type 0 where
  pub marshal_text : Bytes → Bytes
  pub unmarshal_text : Bytes → Option Bytes

pub data TextError : Type 0 where
  bad_json invalid_balance : TextError

module _ (json : TextJson) where
  unfoldable pub marshal_json : Balance → Bytes
  unfolding string
  marshal_json b = json.marshal_text (string b)

  -- The write through the receiver; a nil pointer (`none`) panics.
  abbrev store_balance : ℤ → Option Balance → Outcome TextError (Unit {0}) × Option Balance
  store_balance n none = (panic, none)
  store_balance n (some old) = (ok tt, some (some n))

  -- The balance is written last, when nothing failed.
  unfoldable pub unmarshal_json : Bytes → Action (Option Balance) TextError (Unit {0})
  unfolding new_balance_from_string
  unmarshal_json data_ b = elim (json.unmarshal_text data_) [
    | none ↦ (err bad_json, b)
    | some s ↦ elim (new_balance_from_string s) [
      | none ↦ (err invalid_balance, b)
      | some n ↦ store_balance n b
    ]
  ]
