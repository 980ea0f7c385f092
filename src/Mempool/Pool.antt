-- ===== src/Mempool/Pool.antt =====
-- The pool and its methods. `I` is the type of the items, `get_id` their `GetID`. The mutex is not
-- modelled: no method calls another.
use tc_node_validator_go.Base.{
  ℕ, String, ◌≡◌, refl, Bool, false, ◌||◌, Option, none, List, [], ◌∷◌, ◌++◌, map, length, leb,
  str_eq, if◌then◌else◌, Dict, lookup, insert, erase, lookup-erase, arith,
}

pub record Mempool (I : Type 0) : Type 0 where
  pub items : Dict I

unfoldable pub new_mempool : {I : Type 0} → Mempool I
new_mempool = record { items = [] }

unfoldable clear : {I : Type 0} → Mempool I → Mempool I
clear mp = record { items = [] }

abbrev pub value_of : {I : Type 0} → String × I → I
value_of (id, item) = item

abbrev pub max_items : ℕ
max_items = 100

module _ {I : Type 0} where
  unfoldable pub get_item : String → Mempool I → Option I
  get_item id mp = lookup id mp.items

  unfoldable remove_item : String → Mempool I → Mempool I
  remove_item id mp = record mp { items = erase id mp.items }

  unfoldable get_size : Mempool I → ℕ
  get_size mp = length mp.items

  -- The loop of `GetPendingItems` over the entries in the order in which it meets them.
  unfoldable pub collect : List I → List (String × I) → List I
  collect result [] = result
  collect result ((id, item) ∷ entries) =
      let more = result ++ item ∷ [] in
      let rest = collect more entries in if leb max_items (length more) then more else rest

  module _ (order : Dict I → List (String × I)) where
    unfoldable pub get_pending_items : Mempool I → List I
    get_pending_items mp = collect [] (order mp.items)

    unfoldable pub get_all_items : Mempool I → List I
    get_all_items mp = map value_of (order mp.items)

module _ {I : Type 0} (get_id : I → String) where
  unfoldable pub add_item : I → Mempool I → Mempool I
  add_item item mp = record mp { items = insert (get_id item) item mp.items }

  abbrev erase_all : List I → Dict I → Dict I
  erase_all [] m = m
  erase_all (item ∷ items) m = erase_all items (erase (get_id item) m)

  unfoldable pub remove_processed_items : List I → Mempool I → Mempool I
  remove_processed_items items mp = record mp { items = erase_all items mp.items }

  -- Some item of a list has a given ID.
  unfoldable pub has_id : String → List I → Bool
  has_id id [] = false
  has_id id (item ∷ items) = str_eq (get_id item) id || has_id id items

  -- After the items of a block have been removed, the pool holds no item with the ID of one of them,
  -- and under every other ID what it held before.
  pub get_item-remove_processed_items :
      (id : String) (items : List I) (mp : Mempool I)
      → get_item id (remove_processed_items items mp)
        ≡ (if has_id id items then none else get_item id mp)
  unfolding get_item remove_processed_items has_id
  get_item-remove_processed_items id items mp = erased items mp.items
    where
      erased :
          (items : List I) (m : Dict I)
          → lookup id (erase_all items m) ≡ (if has_id id items then none else lookup id m)
      erased [] m = refl
      erased (item ∷ items) m =
          ground (arith, erased items (erase (get_id item) m), lookup-erase (get_id item) id m)
