-- ===== src/Dpos/Counting.antt =====
-- How many there are after a change of a map and in another order.
use mathlib.Core.List.{Perm}
use mathlib.Core.List.{length as length_lib}
use mathlib.Core.List.Perm
use native.Mathlib.Bridge.{from_ℕ}
use tc_node_validator_go.Base.{
  suc, ◌≡◌, ◌∙◌, refl, sym, ap, String, List, [], ◌∷◌, length, Dict, adjust, arith,
}

pub length-adjust :
    {V : Type 0} (k : String) (g : V → V) (m : Dict V) → length (adjust k g m) ≡ length m
unfolding adjust
length-adjust k g [] = refl
length-adjust k g ((i, v) ∷ m) = ground (arith, length-adjust k g m)

length-lib {ℓ} : {A : Type ℓ} (xs : List A) → length xs ≡ from_ℕ (length_lib xs)
length-lib [] = refl
length-lib (x ∷ xs) = ap suc (length-lib xs)

pub length-Perm {ℓ} : {A : Type ℓ} (xs ys : List A) → Perm xs ys → length xs ≡ length ys
length-Perm xs ys p = length-lib xs ∙ ap from_ℕ (Perm.length-eq p) ∙ sym (length-lib ys)
