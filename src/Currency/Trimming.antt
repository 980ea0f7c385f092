-- ===== src/Currency/Trimming.antt =====
-- What is left of a text when the zeros at its end are cut.
use tc_node_validator_go.Base.{
  ℕ, suc, ◌≤◌, ◌≡◌, ◌≢◌, ◌⊎◌, refl, [], ◌∷◌, length, ◌==◌, Bool-cases, inl, inr, arith,
}
use tc_node_validator_go.Currency.Text.{Bytes, keep_digit, trim_zeros}
use tc_node_validator_go.Currency.Printing.{IsDigit, AllDigits}

-- A text that is not empty and whose last byte is no zero.
abbrev pub EndsNonzero : Bytes → Type 0
EndsNonzero [] = ⊥
EndsNonzero (c ∷ []) = c ≢ b'0'
EndsNonzero (c ∷ d ∷ s) = EndsNonzero (d ∷ s)

keep_digit-EndsNonzero :
    (c : ℕ) (s : Bytes)
    → ((s ≡ []) ⊎ EndsNonzero s)
    → ((keep_digit c s ≡ []) ⊎ EndsNonzero (keep_digit c s))
unfolding keep_digit
keep_digit-EndsNonzero c [] h = elim (Bool-cases (c == b'0')) [
  | inl e ↦ inl (rw e refl)
  | inr e ↦ rw e (inr (λ same. ground (arith, e, same)))
]
keep_digit-EndsNonzero c (d ∷ s) (inl e) = cc
keep_digit-EndsNonzero c (d ∷ s) (inr e) = inr e

pub trim_zeros-EndsNonzero : (s : Bytes) → (trim_zeros s ≡ []) ⊎ EndsNonzero (trim_zeros s)
unfolding trim_zeros
trim_zeros-EndsNonzero [] = inl refl
trim_zeros-EndsNonzero (c ∷ s) = keep_digit-EndsNonzero c (trim_zeros s) (trim_zeros-EndsNonzero s)

keep_digit-AllDigits : (c : ℕ) (s : Bytes) → IsDigit c → AllDigits s → AllDigits (keep_digit c s)
unfolding keep_digit
keep_digit-AllDigits c [] h k = elim (Bool-cases (c == b'0')) [
  | inl e ↦ rw e tt
  | inr e ↦ rw e (h, tt)
]
keep_digit-AllDigits c (d ∷ s) h k = (h, k)

pub trim_zeros-AllDigits : (s : Bytes) → AllDigits s → AllDigits (trim_zeros s)
unfolding trim_zeros
trim_zeros-AllDigits [] h = tt
trim_zeros-AllDigits (c ∷ s) h =
    keep_digit-AllDigits c (trim_zeros s) h.0 (trim_zeros-AllDigits s h.1)

length-keep_digit : (c : ℕ) (s : Bytes) → length (keep_digit c s) ≤ suc (length s)
unfolding keep_digit
length-keep_digit c [] = ground arith
length-keep_digit c (d ∷ s) = omega arith

pub length-trim_zeros : (s : Bytes) → length (trim_zeros s) ≤ length s
unfolding trim_zeros
length-trim_zeros [] = omega arith
length-trim_zeros (c ∷ s) = omega (arith, length-keep_digit c (trim_zeros s), length-trim_zeros s)
