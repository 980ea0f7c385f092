-- ===== src/Base/Maps.antt =====
-- Go's `map[string]V` as an association list. Keys are compared as whole texts.
use Prim.Native.String.{String}
use mathlib.Core.Path.{◌≡◌, refl}
use mathlib.Core.Bool.{Bool, true, false}
use mathlib.Core.Option.{Option, none, some}
use mathlib.Core.List.{List, [], ◌∷◌}
use native.Mathlib.Omega.{arith}
use text.Mathlib.Text.{◌==◌ as str_eq}
use text.Mathlib.TextEquality.{eq_iff}
use mathlib.Core.Logic.{inl, inr}
use tc_node_validator_go.Base.Tests.{Bool-cases, if◌then◌else◌}
use tc_node_validator_go.Base.Int.{ℤ, pos, ◌+ℤ◌, int_laws}

abbrev pub Dict {ℓ} : Type ℓ → Type ℓ
Dict V = List (String × V)

module _ {ℓ} {V : Type ℓ} where
  unfoldable pub lookup : String → Dict V → Option V
  lookup k [] = none
  lookup k ((j, v) ∷ m) = if str_eq j k then some v else lookup k m

  abbrev pub contains : String → Dict V → Bool
  contains k m = elim (lookup k m) [ none ↦ false | some v ↦ true ]

  -- `m[k] = v`
  unfoldable pub insert : String → V → Dict V → Dict V
  insert k v [] = (k, v) ∷ []
  insert k v ((j, w) ∷ m) = if str_eq j k then (k, v) ∷ m else (j, w) ∷ insert k v m

  -- `delete(m, k)`
  unfoldable pub erase : String → Dict V → Dict V
  erase k [] = []
  erase k ((j, w) ∷ m) = if str_eq j k then erase k m else (j, w) ∷ erase k m

  -- A write through the pointer that the map holds at a key.
  unfoldable pub adjust : String → (V → V) → Dict V → Dict V
  adjust k f [] = []
  adjust k f ((j, w) ∷ m) = if str_eq j k then (j, f w) ∷ m else (j, w) ∷ adjust k f m

  pub lookup-insert :
      (at other : String) (new : V) (entries : Dict V)
      → lookup other (insert at new entries)
        ≡ (if str_eq at other then some new else lookup other entries)
  unfolding insert lookup
  lookup-insert at other new [] = refl
  lookup-insert at other new ((key, old) ∷ entries) =
      ground (
        arith,
        lookup-insert at other new entries,
        eq_iff at other,
        eq_iff key at,
        eq_iff key other,
      )

  pub lookup-erase :
      (k j : String) (m : Dict V) → lookup j (erase k m) ≡ (if str_eq k j then none else lookup j m)
  unfolding lookup erase
  lookup-erase k j [] = ground arith
  lookup-erase k j ((i, w) ∷ m) =
      ground (arith, eq_iff k j, eq_iff i k, eq_iff i j, lookup-erase k j m)

  pub lookup-adjust :
      (k j : String) (f : V → V) (m : Dict V)
      → lookup j (adjust k f m)
        ≡ elim (lookup j m) [ none ↦ none | some v ↦ some (if str_eq k j then f v else v) ]
  unfolding lookup adjust
  lookup-adjust k j f [] = refl
  lookup-adjust k j f ((i, w) ∷ m) =
      ground (arith, eq_iff k j, eq_iff i k, eq_iff i j, lookup-adjust k j f m)

  pub contains-adjust :
      (k j : String) (f : V → V) (m : Dict V) → contains j (adjust k f m) ≡ contains j m
  contains-adjust k j f m = ground (arith, lookup-adjust k j f m)

  -- Every value of the map satisfies a predicate.
  abbrev pub All {κ} : (V → Type κ) → Dict V → Type κ
  All P [] = Unit
  All P ((_, v) ∷ m) = P v × All P m

  -- The sum of a measure over all entries.
  unfoldable pub sum_by : (V → ℤ) → Dict V → ℤ
  sum_by w [] = pos 0
  sum_by w ((_, v) ∷ m) = w v +ℤ sum_by w m

  pub sum_by-insert_new :
      (w : V → ℤ) (k : String) (v : V) (m : Dict V)
      → lookup k m ≡ none
      → sum_by w (insert k v m) ≡ sum_by w m +ℤ w v
  unfolding lookup insert sum_by
  sum_by-insert_new w k v [] h = omega int_laws
  sum_by-insert_new w k v ((i, u) ∷ m) h = grind (int_laws, sum_by-insert_new w k v m)

  -- An update that shifts the measure of every value by `d` shifts the sum by `d`.
  pub sum_by-adjust_shift :
      (w : V → ℤ) (k : String) (f : V → V) (d : ℤ) (m : Dict V)
      → ((v : V) → w (f v) ≡ w v +ℤ d)
      → contains k m ≡ true
      → sum_by w (adjust k f m) ≡ sum_by w m +ℤ d
  unfolding lookup adjust sum_by
  sum_by-adjust_shift w k f d [] s h = cc
  sum_by-adjust_shift w k f d ((i, u) ∷ m) s h =
      grind (int_laws, s u, sum_by-adjust_shift w k f d m s)

  pub sum_by-adjust_same :
      (w : V → ℤ) (k : String) (f : V → V) (m : Dict V)
      → ((v : V) → w (f v) ≡ w v)
      → sum_by w (adjust k f m) ≡ sum_by w m
  unfolding adjust sum_by
  sum_by-adjust_same w k f [] s = refl
  sum_by-adjust_same w k f ((i, u) ∷ m) s = ground (arith, s u, sum_by-adjust_same w k f m s)

module _ {ℓ κ} {V : Type ℓ} (P : V → Type κ) where
  pub All-insert : (k : String) (v : V) (m : Dict V) → P v → All P m → All P (insert k v m)
  unfolding insert
  All-insert k v [] p h = (p, tt)
  All-insert k v ((i, u) ∷ m) p h = ground (arith, All-insert k v m p h.1)

  pub All-adjust :
      (k : String) (f : V → V) (m : Dict V)
      → ((v : V) → lookup k m ≡ some v → P v → P (f v))
      → All P m
      → All P (adjust k f m)
  unfolding lookup adjust
  All-adjust k f [] s h = tt
  All-adjust k f ((i, u) ∷ m) s h = elim (Bool-cases (str_eq i k)) [
    | inl e ↦ rw e (s u (rw e) h.0, h.1)
    | inr e ↦ rw e (h.0, All-adjust k f m (λ v p q. s v (rw e p) q) h.1)
  ]

  pub All-lookup : (k : String) (v : V) (m : Dict V) → All P m → lookup k m ≡ some v → P v
  unfolding lookup
  All-lookup k v [] h e = cc
  All-lookup k v ((i, u) ∷ m) h e = ground (arith, All-lookup k v m h.1)
