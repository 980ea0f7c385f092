-- ===== src/Currency/Printing.antt =====
-- What the texts of balances read back as.
use tc_node_validator_go.Base.{
  ℕ, zero, suc, ◌+◌, ◌-◌, ◌*◌, ◌/◌, ◌%◌, ◌≤◌, ◌<◌, ◌≡◌, ◌≢◌, refl, true, false, none, some, [], ◌∷◌,
  ◌++◌, length-append, ℤ, pos, negsuc, ltb, Bool-cases, inl, inr, ok, panic, arith,
}
use tc_node_validator_go.Currency.Text.{
  Bytes, Balance, decimal_digits, decimal_text, int_text, scan_digits, scan_nat,
  new_balance_from_string, string, TextJson, marshal_json, unmarshal_json,
}

abbrev pub IsDigit : ℕ → Type 0
IsDigit c = (b'0' ≤ c) × (c ≤ b'9')

abbrev pub AllDigits : Bytes → Type 0
AllDigits [] = Unit
AllDigits (c ∷ s) = IsDigit c × AllDigits s

AllDigits-append : (s t : Bytes) → AllDigits s → AllDigits t → AllDigits (s ++ t)
AllDigits-append [] t hs ht = ht
AllDigits-append (c ∷ s) t hs ht = (hs.0, AllDigits-append s t hs.1 ht)

pub last_step : (fuel n : ℕ) → ltb n 10 ≡ true → decimal_digits (suc fuel) n ≡ (b'0' + n) ∷ []
unfolding decimal_digits
last_step fuel n e = ground (arith, e)

pub next_step :
    (fuel n : ℕ)
    → ltb n 10 ≡ false
    → decimal_digits (suc fuel) n ≡ decimal_digits fuel (n / 10) ++ (b'0' + n % 10) ∷ []
unfolding decimal_digits
next_step fuel n e = ground (arith, e)

decimal_digits-AllDigits : (fuel n : ℕ) → AllDigits (decimal_digits fuel n)
unfolding decimal_digits
decimal_digits-AllDigits zero n = tt
decimal_digits-AllDigits (suc fuel) n = elim (Bool-cases (ltb n 10)) [
  | inl e ↦ rw (last_step fuel n e) ((omega arith, ground (arith, e)), tt)
  | inr e ↦ rw (next_step fuel n e) (
      AllDigits-append (decimal_digits fuel (n / 10)) ((b'0' + n % 10) ∷ [])
        (decimal_digits-AllDigits fuel (n / 10)) ((omega arith, omega arith), tt))
]

scan_digits-append :
    (s t : Bytes) (n m : ℕ) → scan_digits s n ≡ some m → scan_digits (s ++ t) n ≡ scan_digits t m
unfolding scan_digits
scan_digits-append [] t n m h = ground (arith, h)
scan_digits-append (c ∷ s) t n m h = ground (arith, scan_digits-append s t (n * 10 + (c - b'0')) m)

last_digit : (m d : ℕ) → d < 10 → scan_digits ((b'0' + d) ∷ []) m ≡ some (m * 10 + d)
unfolding scan_digits
last_digit m d h = ground (arith, h)

-- The digits spell the number when there is fuel for all of them.
scan_digits-decimal_digits :
    (fuel n : ℕ) → n < fuel → scan_digits (decimal_digits fuel n) 0 ≡ some n
unfolding decimal_digits
scan_digits-decimal_digits zero n h = absurd (omega arith)
scan_digits-decimal_digits (suc fuel) n h = elim (Bool-cases (ltb n 10)) [
  | inl e ↦ rw (last_step fuel n e, last_digit 0 n (ground (arith, e))) (ground arith)
  | inr e ↦
      rw
        (
          next_step fuel n e,
          scan_digits-append (decimal_digits fuel (n / 10)) ((b'0' + n % 10) ∷ []) 0 (n / 10)
              (scan_digits-decimal_digits fuel (n / 10) (ground (arith, e))),
          last_digit (n / 10) (n % 10) (omega arith),
        )
        (ground arith)
]

pub decimal_text-AllDigits : (n : ℕ) → AllDigits (decimal_text n)
unfolding decimal_text
decimal_text-AllDigits n = decimal_digits-AllDigits (suc n) n

pub scan_digits-decimal_text : (n : ℕ) → scan_digits (decimal_text n) 0 ≡ some n
unfolding decimal_text
scan_digits-decimal_text n = scan_digits-decimal_digits (suc n) n (omega arith)

decimal_text-ne-nil : (n : ℕ) → decimal_text n ≢ []
unfolding decimal_text decimal_digits
decimal_text-ne-nil n =
    ground (arith, length-append (decimal_digits n (n / 10)) ((b'0' + n % 10) ∷ []))

-- Digits alone are read as what they spell.
read_digits_alone :
    (s : Bytes) (n : ℕ)
    → AllDigits s
    → s ≢ []
    → scan_digits s 0 ≡ some n
    → (new_balance_from_string s ≡ some (pos n)) × (scan_nat s ≡ some n)
unfolding new_balance_from_string
read_digits_alone [] n h e r = absurd (e refl)
read_digits_alone (c ∷ s) n h e r = ground (arith, r)

read-decimal_text :
    (n : ℕ)
    → (new_balance_from_string (decimal_text n) ≡ some (pos n))
      × (scan_nat (decimal_text n) ≡ some n)
read-decimal_text n =
    read_digits_alone (decimal_text n) n (decimal_text-AllDigits n) (decimal_text-ne-nil n)
      (scan_digits-decimal_text n)

pub new_balance_from_string-int_text : (z : ℤ) → new_balance_from_string (int_text z) ≡ some z
unfolding int_text new_balance_from_string
new_balance_from_string-int_text (pos n) = (read-decimal_text n).0
new_balance_from_string-int_text (negsuc n) =
    minus (decimal_text (suc n)) (read-decimal_text (suc n)).1
  where
    minus :
        (s : Bytes)
        → scan_nat s ≡ some (suc n)
        → new_balance_from_string (b'-' ∷ s) ≡ some (negsuc n)
    minus s h = ground (arith, h)

-- Bytes of ASCII, of which JSON texts keep every one.
abbrev pub AllAscii : Bytes → Type 0
AllAscii [] = Unit
AllAscii (c ∷ s) = (c < 128) × AllAscii s

AllDigits-AllAscii : (s : Bytes) → AllDigits s → AllAscii s
AllDigits-AllAscii [] h = tt
AllDigits-AllAscii (c ∷ s) h = (omega (arith, h.0), AllDigits-AllAscii s h.1)

string-AllAscii : (b : Balance) → AllAscii (string b)
unfolding string int_text
string-AllAscii none = (omega arith, tt)
string-AllAscii (some (pos n)) = AllDigits-AllAscii (decimal_text n) (decimal_text-AllDigits n)
string-AllAscii (some (negsuc n)) =
    (omega arith, AllDigits-AllAscii (decimal_text (suc n)) (decimal_text-AllDigits (suc n)))

-- A nil balance is written as 0.
abbrev pub value_or_zero : Balance → ℤ
value_or_zero none = pos 0
value_or_zero (some n) = n

new_balance_from_string-string :
    (b : Balance) → new_balance_from_string (string b) ≡ some (value_or_zero b)
unfolding string new_balance_from_string
new_balance_from_string-string none = refl
new_balance_from_string-string (some n) = new_balance_from_string-int_text n

-- When JSON reads back every ASCII text that it writes, what `MarshalJSON` writes for a balance,
-- negative or not, is read by `UnmarshalJSON` into any balance without an error, and gives the same
-- amount; a nil balance comes back as 0. Reading it into a nil pointer panics.
pub unmarshal_json-marshal_json :
    (json : TextJson)
    → ((s : Bytes) → AllAscii s → json.unmarshal_text (json.marshal_text s) ≡ some s)
    → (b old : Balance)
    → (unmarshal_json json (marshal_json json b) (some old)
        ≡ (ok tt, some (some (value_or_zero b))))
      × (unmarshal_json json (marshal_json json b) none ≡ (panic, none))
unfolding marshal_json unmarshal_json
unmarshal_json-marshal_json json law b old =
    let read = law (string b) (string-AllAscii b) in
    (
      ground (arith, read, new_balance_from_string-string b),
      ground (arith, read, new_balance_from_string-string b),
    )
