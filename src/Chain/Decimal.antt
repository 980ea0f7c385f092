-- ===== src/Chain/Decimal.antt =====
-- The decimal text of a uint64, read back.
use Prim.Native.Char.{code}
use Prim.Native.String.{◌++◌ as str_append}
use text.Mathlib.TextLemmas.{cons-append, nil-append}
use tc_node_validator_go.Base.{
  ℕ, zero, suc, ◌+◌, ◌-◌, ◌*◌, ◌/◌, ◌%◌, ◌^◌, ◌<◌, String, ◌≡◌, refl, ltb, Bool-cases, inl, inr,
  arith,
}
use tc_node_validator_go.Chain.Block.{digit, format_digits, format_uint}

-- The number that digits continue.
unfoldable pub read_digits : ℕ → String → ℕ
read_digits n String.[] = n
read_digits n (String.◌∷◌ c s) = read_digits (n * 10 + (code c - 48)) s

read_digits-append :
    (n : ℕ) (s t : String) → read_digits n (str_append s t) ≡ read_digits (read_digits n s) t
unfolding read_digits
read_digits-append n String.[] t = rw (nil-append t) refl
read_digits-append n (String.◌∷◌ c s) t =
    rw (cons-append c s t) (read_digits-append (n * 10 + (code c - 48)) s t)

read_digits-digit : (n d : ℕ) → d < 10 → read_digits n (digit d) ≡ n * 10 + d
unfolding read_digits digit
read_digits-digit n zero h = omega arith
read_digits-digit n (suc zero) h = omega arith
read_digits-digit n (suc (suc zero)) h = omega arith
read_digits-digit n (suc (suc (suc zero))) h = omega arith
read_digits-digit n (suc (suc (suc (suc zero)))) h = omega arith
read_digits-digit n (suc (suc (suc (suc (suc zero))))) h = omega arith
read_digits-digit n (suc (suc (suc (suc (suc (suc zero)))))) h = omega arith
read_digits-digit n (suc (suc (suc (suc (suc (suc (suc zero))))))) h = omega arith
read_digits-digit n (suc (suc (suc (suc (suc (suc (suc (suc zero)))))))) h = omega arith
read_digits-digit n (suc (suc (suc (suc (suc (suc (suc (suc (suc zero))))))))) h = omega arith
read_digits-digit n (suc (suc (suc (suc (suc (suc (suc (suc (suc (suc d)))))))))) h = omega arith

read_digits-format_digits : (k n : ℕ) → n < 10 ^ k → read_digits 0 (format_digits k n) ≡ n
unfolding format_digits read_digits
read_digits-format_digits zero n h = omega (arith, h)
read_digits-format_digits (suc k) n h = elim (Bool-cases (ltb n 10)) [
  | inl e ↦ rw e (rw (read_digits-digit 0 n (ground (arith, e))) (omega arith))
  | inr e ↦
      rw
        (
          e,
          read_digits-append 0 (format_digits k (n / 10)) (digit (n % 10)),
          read_digits-format_digits k (n / 10) (omega arith),
          read_digits-digit (n / 10) (n % 10) (omega arith),
        )
        (omega arith)
]

pub read_digits-format_uint : (n : ℕ) → n < 2 ^ 64 → read_digits 0 (format_uint n) ≡ n
unfolding format_uint
read_digits-format_uint n h = read_digits-format_digits 20 n (omega (arith, h))
