-- ===== src/Mempool/Pending.antt =====
-- What `GetPendingItems` gives.
use mathlib.Core.List.{Perm, append_assoc, append-nil}
use mathlib.Core.List.Perm
use mathlib.Core.Path.{subst}
use tc_node_validator_go.Base.{
  ℕ, zero, suc, ◌+◌, true, false, take, ◌≤◌, ◌<◌, String, ◌≡◌, refl, sym, ap, ◌∙◌, inl, inr, ◌⊎◌,
  Bool-cases, List, [], ◌∷◌, ◌++◌, map, length, length-append, leb, leb→le, Dict, arith,
}
use tc_node_validator_go.Mempool.Pool.{
  Mempool, value_of, max_items, collect, get_pending_items, get_all_items,
}

module _ {I : Type 0} where
  -- Items of a pool, at most a hundred, and all of them unless they are a hundred.
  pub record IsPart (all part : List I) : Type 0 where
    pub rest : List I
    pub all_there : Perm (part ++ rest) all
    pub bounded : length part ≤ max_items
    pub full : (rest ≡ []) ⊎ (length part ≡ max_items)

  collected :
      (result : List I) (entries : List (String × I))
      → length result < max_items
      → (taken rest : List I) × (collect result entries ≡ result ++ taken)
        × (taken ++ rest ≡ map value_of entries)
        × (length (collect result entries) ≤ max_items)
        × ((rest ≡ []) ⊎ (length (collect result entries) ≡ max_items))
  unfolding collect
  collected result [] h = ([], [], sym (append-nil result), refl, omega (arith, h), inl refl)
  collected result ((id, item) ∷ entries) h =
      let size = length-append result (item ∷ []) in
      elim (Bool-cases (leb max_items (length (result ++ item ∷ [])))) [
        | inl e ↦
            let le = leb→le max_items (length (result ++ item ∷ [])) e in
            (
              item ∷ [],
              map value_of entries,
              rw (e, collect),
              refl,
              rw (e, collect) (omega (arith, h, size)),
              inr (rw (e, collect) (omega (arith, h, size, le))),
            )
        | inr e ↦
            let (taken, rest, same, parts, bound, full) =
              collected (result ++ item ∷ []) entries (ground (arith, e)) in
            (
              item ∷ taken,
              rest,
              rw (e, collect) (same ∙ append_assoc result (item ∷ []) taken),
              ap (◌∷◌ item) parts,
              rw (e, collect) bound,
              rw (e, collect) full,
            )
      ]

  -- The pending items as a part of the pool.
  pub get_pending_items-IsPart :
      (order : Dict I → List (String × I)) (mp : Mempool I)
      → ((m : Dict I) → Perm (order m) m)
      → IsPart (map value_of mp.items) (get_pending_items order mp)
  unfolding get_pending_items
  get_pending_items-IsPart order mp reads =
      let (taken, rest, same, parts, bound, full) = collected [] (order mp.items) (omega arith) in
      record {
        rest = rest;
        all_there =
            subst (λ xs. Perm (xs ++ rest) (map value_of mp.items)) (sym same)
              (subst (λ xs. Perm xs (map value_of mp.items)) (sym parts)
                (Perm.map value_of (reads mp.items)));
        bounded = bound;
        full = full;
      }

  -- What is collected, with room for `suc room` more items.
  collect-take :
      (room : ℕ) (result : List I) (entries : List (String × I))
      → length result + suc room ≡ max_items
      → collect result entries ≡ result ++ take (suc room) (map value_of entries)
  unfolding collect
  collect-take room result [] h = sym (append-nil result)
  collect-take zero result ((id, item) ∷ entries) h =
      let full : leb max_items (length (result ++ item ∷ [])) ≡ true =
        ground (arith, h, length-append result (item ∷ [])) in
      rw (full, collect) refl
  collect-take (suc room) result ((id, item) ∷ entries) h =
      let some_room : leb max_items (length (result ++ item ∷ [])) ≡ false =
        ground (arith, h, length-append result (item ∷ [])) in
      rw (some_room, collect)
        (collect-take room (result ++ item ∷ []) entries
            (omega (arith, h, length-append result (item ∷ [])))
          ∙ append_assoc result (item ∷ []) (take (suc room) (map value_of entries)))

  -- The loop that stops at a hundred items is the cut of the whole list: in an order of reading the
  -- map, `GetPendingItems` gives the first hundred of what `GetAllItems` gives in that order.
  pub get_pending_items-take :
      (order : Dict I → List (String × I)) (mp : Mempool I)
      → get_pending_items order mp ≡ take max_items (get_all_items order mp)
  unfolding get_pending_items get_all_items
  get_pending_items-take order mp = collect-take 99 [] (order mp.items) refl
