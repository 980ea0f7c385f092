-- ===== src/Currency/Fraction.antt =====
-- `TripCoinString`, read back to quarks.
use native.Mathlib.Nat.{pow-succ'}
use tc_node_validator_go.Base.{
  ℕ, zero, suc, ◌+◌, ◌-◌, ◌*◌, ◌/◌, ◌%◌, ◌^◌, ◌≤◌, ◌<◌, ◌≡◌, ◌⊎◌, ◌∙◌, ap, refl, false, some, [],
  ◌∷◌, ◌++◌, length, length-append, pos, div_ℤ, ltb, ◌==◌, Bool-cases, inl, inr, if◌then◌else◌,
  arith,
}
use tc_node_validator_go.Currency.State.{trip_coin}
use tc_node_validator_go.Currency.Text.{
  Bytes, codes, decimal_digits, decimal_text, int_text, scan_digits, mod_ℤ, pad_left,
  with_leading_zeros, keep_digit, trim_zeros, trip_coin_string, tcc_decimals,
}
use tc_node_validator_go.Currency.Printing.{
  IsDigit, AllDigits, last_step, next_step, decimal_text-AllDigits, scan_digits-decimal_text,
}
use tc_node_validator_go.Currency.Trimming.{
  EndsNonzero, trim_zeros-EndsNonzero, trim_zeros-AllDigits, length-trim_zeros,
}

-- What the digits behind the point stand for, when the first counts ten to the power of `k`, less
-- one power.
unfoldable pub fraction : ℕ → Bytes → ℕ
fraction zero s = 0
fraction (suc k) [] = 0
fraction (suc k) (c ∷ s) =
    let rest = fraction k s in if c == b' ' then 0 else (c - b'0') * 10 ^ k + rest

-- The quarks that a text in TCC stands for, `whole` being read already.
unfoldable pub quarks : ℕ → Bytes → ℕ
quarks whole [] = whole * 10 ^ 18
quarks whole (c ∷ s) =
    let rest = quarks (whole * 10 + (c - b'0')) s in
    if c == b'.'
    then whole * 10 ^ 18 + fraction 18 s
    else if c == b' '
    then whole * 10 ^ 18
    else rest

quarks-append :
    (s t : Bytes) (n m : ℕ)
    → AllDigits s
    → scan_digits s n ≡ some m
    → quarks n (s ++ t) ≡ quarks m t
unfolding quarks scan_digits
quarks-append [] t n m h r = ground (arith, r)
quarks-append (c ∷ s) t n m h r =
    ground (arith, r, h.0, quarks-append s t (n * 10 + (c - b'0')) m h.1)

fraction-step :
    (k c : ℕ) (s : Bytes)
    → IsDigit c
    → fraction (suc k) (c ∷ s) ≡ (c - b'0') * 10 ^ k + fraction k s
unfolding fraction
fraction-step k c s h = ground (arith, h)

power_step : (n d k : ℕ) → n * 10 ^ suc k + d * 10 ^ k ≡ (n * 10 + d) * 10 ^ k
power_step n d k = rw (pow-succ' 10 k) (grind arith)

-- The digits behind the point, when there are as many as are counted.
fraction-digits :
    (k : ℕ) (s t : Bytes) (n m : ℕ)
    → length s ≡ k
    → AllDigits s
    → scan_digits s n ≡ some m
    → n * 10 ^ k + fraction k (s ++ t) ≡ m
unfolding fraction scan_digits
fraction-digits zero [] t n m l h r = ground (arith, r)
fraction-digits zero (c ∷ s) t n m l h r = absurd (omega (arith, l))
fraction-digits (suc k) [] t n m l h r = absurd (omega (arith, l))
fraction-digits (suc k) (c ∷ s) t n m l h r = rw (fraction-step k c (s ++ t) h.0) (
    ground (
      arith,
      r,
      h.0,
      power_step n (c - b'0') k,
      fraction-digits k s t (n * 10 + (c - b'0')) m (omega (arith, l)) h.1,
    ))

fraction-keep_digit :
    (k c : ℕ) (s t : Bytes)
    → IsDigit c
    → fraction (suc k) (keep_digit c s ++ b' ' ∷ t)
      ≡ (c - b'0') * 10 ^ k + fraction k (s ++ b' ' ∷ t)
unfolding fraction keep_digit
fraction-keep_digit zero c [] t h = ground (arith, h)
fraction-keep_digit (suc k) c [] t h = ground (arith, h)
fraction-keep_digit k c (d ∷ s) t h = fraction-step k c (d ∷ s ++ b' ' ∷ t) h

fraction-trim_zeros :
    (k : ℕ) (s t : Bytes)
    → AllDigits s
    → fraction k (trim_zeros s ++ b' ' ∷ t) ≡ fraction k (s ++ b' ' ∷ t)
unfolding fraction trim_zeros
fraction-trim_zeros k [] t h = refl
fraction-trim_zeros zero (c ∷ s) t h = refl
fraction-trim_zeros (suc k) (c ∷ s) t h =
    rw
      (
        fraction-keep_digit k c (trim_zeros s) t h.0,
        fraction-step k c (s ++ b' ' ∷ t) h.0,
        fraction-trim_zeros k s t h.1,
      )
      refl

length-decimal_digits :
    (places fuel n : ℕ) → n < 10 ^ suc places → length (decimal_digits fuel n) ≤ suc places
unfolding decimal_digits
length-decimal_digits places zero n h = omega arith
length-decimal_digits zero (suc fuel) n h = rw (last_step fuel n (ground (arith, h))) (omega arith)
length-decimal_digits (suc places) (suc fuel) n h = elim (Bool-cases (ltb n 10)) [
  | inl e ↦ rw (last_step fuel n e) (omega arith)
  | inr e ↦
      rw (next_step fuel n e, length-append (decimal_digits fuel (n / 10)) ((b'0' + n % 10) ∷ []))
        (omega (arith, length-decimal_digits places fuel (n / 10) (omega (arith, h))))
]

length-decimal_text : (n : ℕ) → n < trip_coin → length (decimal_text n) ≤ tcc_decimals
unfolding decimal_text
length-decimal_text n h = length-decimal_digits 17 (suc n) n h

AllDigits-pad_left : (k : ℕ) (s : Bytes) → AllDigits s → AllDigits (pad_left k s)
unfolding pad_left
AllDigits-pad_left zero s h = h
AllDigits-pad_left (suc k) s h = AllDigits-pad_left k (b'0' ∷ s) ((omega arith, omega arith), h)

length-pad_left : (k : ℕ) (s : Bytes) → length (pad_left k s) ≡ k + length s
unfolding pad_left
length-pad_left zero s = omega arith
length-pad_left (suc k) s = omega (arith, length-pad_left k (b'0' ∷ s))

scan_digits-pad_left : (k : ℕ) (s : Bytes) → scan_digits (pad_left k s) 0 ≡ scan_digits s 0
unfolding pad_left scan_digits
scan_digits-pad_left zero s = refl
scan_digits-pad_left (suc k) s = scan_digits-pad_left k (b'0' ∷ s)

whole_only : (m : ℕ) → quarks m (codes " TCC") ≡ m * 10 ^ 18
unfolding quarks
whole_only m = ground arith

with_rest : (m : ℕ) (s : Bytes) → quarks m (b'.' ∷ s) ≡ m * 10 ^ 18 + fraction 18 s
unfolding quarks
with_rest m s = ground arith

-- The digits behind the point, padded and trimmed, stand for the number that was printed.
fraction_part :
    (n : ℕ)
    → n < trip_coin
    → fraction tcc_decimals (trim_zeros (with_leading_zeros (decimal_text n)) ++ codes " TCC") ≡ n
unfolding with_leading_zeros
fraction_part n h =
    let s = decimal_text n in
    let k = tcc_decimals - length s in
    rw
      (fraction-trim_zeros tcc_decimals (pad_left k s) (codes "TCC")
        (AllDigits-pad_left k s (decimal_text-AllDigits n)))
      (omega (
        arith,
        fraction-digits tcc_decimals (pad_left k s) (codes " TCC") 0 n padded
            (AllDigits-pad_left k s (decimal_text-AllDigits n))
            (scan_digits-pad_left k s ∙ scan_digits-decimal_text n),
      ))
  where
    padded :
        length (pad_left (tcc_decimals - length (decimal_text n)) (decimal_text n)) ≡ tcc_decimals
    padded = omega (
      arith,
      length-pad_left (tcc_decimals - length (decimal_text n)) (decimal_text n),
      length-decimal_text n h,
    )

-- How a balance looks: the whole coins, and a rest, if there is one, in at most eighteen digits of
-- which the last is no zero.
abbrev pub IsPrinted : ℕ → Bytes → Type 0
IsPrinted n printed =
    ((n % trip_coin ≡ 0) × (printed ≡ decimal_text (n / trip_coin) ++ codes " TCC"))
    ⊎ ((digits : Bytes) × (printed
          ≡ decimal_text (n / trip_coin) ++ (b'.' ∷ (digits ++ codes " TCC")))
        × AllDigits digits
        × EndsNonzero digits
        × (length digits ≤ 18))

no_digits : fraction tcc_decimals (codes " TCC") ≡ 0
unfolding fraction
no_digits = refl

behind_digits :
    (n : ℕ)
    → n < trip_coin
    → (n == 0) ≡ false
    → let digits = trim_zeros (with_leading_zeros (decimal_text n)) in
      AllDigits digits × EndsNonzero digits × (length digits ≤ 18)
unfolding with_leading_zeros
behind_digits n h more =
    let s = decimal_text n in
    let padded = pad_left (tcc_decimals - length s) s in
    (
      trim_zeros-AllDigits padded
          (AllDigits-pad_left (tcc_decimals - length s) s (decimal_text-AllDigits n)),
      elim (trim_zeros-EndsNonzero padded) [
        | inl e ↦ absurd (
            omega (
              arith,
              fraction_part n h,
              ap (λ ds. fraction tcc_decimals (ds ++ codes " TCC")) e,
              no_digits,
              positive,
            ))
        | inr e ↦ e
      ],
      omega (
        arith,
        length-trim_zeros padded,
        length-pad_left (tcc_decimals - length s) s,
        length-decimal_text n h,
      ),
    )
  where
    positive : 0 < n
    positive = ground (arith, more)

printed_lem : (n : ℕ) → IsPrinted n (trip_coin_string (some (pos n)))
unfolding trip_coin_string int_text div_ℤ mod_ℤ
printed_lem n = elim (Bool-cases (n % trip_coin == 0)) [
  | inl e ↦ rw e (inl (ground (arith, e), refl))
  | inr e ↦
      let (are_digits, ends, short) = behind_digits (n % trip_coin) (omega arith) e in
      let digits = trim_zeros (with_leading_zeros (decimal_text (n % trip_coin))) in
      rw e (inr (digits, refl, are_digits, ends, short))
]

quarks_lem : (n : ℕ) → quarks 0 (trip_coin_string (some (pos n))) ≡ n
unfolding trip_coin_string int_text div_ℤ mod_ℤ
quarks_lem n = elim (Bool-cases (n % trip_coin == 0)) [
  | inl e ↦ rw e (whole (codes " TCC") ∙ ground (arith, e, whole_only (n / trip_coin)))
  | inr e ↦ rw e (
      whole (b'.' ∷ behind)
      ∙ with_rest (n / trip_coin) behind
      ∙ omega (arith, fraction_part (n % trip_coin) (omega arith)))
]
  where
    behind : Bytes
    behind = trim_zeros (with_leading_zeros (decimal_text (n % trip_coin))) ++ codes " TCC"

    whole : (t : Bytes) → quarks 0 (decimal_text (n / trip_coin) ++ t) ≡ quarks (n / trip_coin) t
    whole t =
        quarks-append (decimal_text (n / trip_coin)) t 0 (n / trip_coin)
          (decimal_text-AllDigits (n / trip_coin)) (scan_digits-decimal_text (n / trip_coin))

-- A balance that is not negative prints as a text in TCC that stands for exactly its quarks: the
-- whole coins in decimal, and, unless there is no rest, a point and the rest in at most eighteen
-- digits, of which the last is no zero.
pub quarks-trip_coin_string :
    (n : ℕ)
    → (quarks 0 (trip_coin_string (some (pos n))) ≡ n)
      × IsPrinted n (trip_coin_string (some (pos n)))
quarks-trip_coin_string n = (quarks_lem n, printed_lem n)
