-- ===== src/Mempool/Tests.antt =====
-- The pool's theorems at concrete pools. An item is its own ID.
use tc_node_validator_go.Base.{String, ◌≡◌, refl, some, [], ◌∷◌, take, lookup, insert}
use tc_node_validator_go.Mempool.Pool.{
  Mempool, new_mempool, add_item, get_item, get_pending_items, get_all_items, max_items,
  remove_processed_items, has_id, get_item-remove_processed_items,
}
use tc_node_validator_go.Mempool.Pending.{get_pending_items-take}

abbrev pool : Mempool String
pool = record { items = ("a", "a") ∷ ("b", "b") ∷ ("c", "c") ∷ [] }

abbrev id : String → String
id text = text

add_runs :
    add_item id "b" (add_item id "a" new_mempool) ≡ record { items = ("a", "a") ∷ ("b", "b") ∷ [] }
unfolding add_item new_mempool insert
add_runs = refl

get_item-remove_processed_items_example :
    get_item "c" (remove_processed_items id ("a" ∷ "b" ∷ []) pool) ≡ some "c"
unfolding has_id get_item lookup
get_item-remove_processed_items_example =
    get_item-remove_processed_items id "c" ("a" ∷ "b" ∷ []) pool

get_pending_items-take_example :
    get_pending_items (λ m. m) pool ≡ take max_items (get_all_items (λ m. m) pool)
get_pending_items-take_example = get_pending_items-take (λ m. m) pool
