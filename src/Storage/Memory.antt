-- ===== src/Storage/Memory.antt =====
-- A database in memory, which is what LevelDB documents of itself.
use tc_node_validator_go.Base.{
  String, ◌≡◌, refl, Bool, true, false, Option, none, some, List, [], ◌∷◌, arith, str_eq, Dict,
  lookup, insert, erase, lookup-insert, lookup-erase, if◌then◌else◌,
}
use tc_node_validator_go.Storage.Store.{Reading, found, not_found, LevelDb, IsLawful, last_put}

unfoldable pub put_all : List (String × String) → Dict String → Dict String
put_all [] db = db
put_all ((k, v) ∷ batch) db = put_all batch (insert k v db)

abbrev reading : Option String → Reading
reading none = not_found
reading (some v) = found v

-- No test iterates.
abbrev pub memory : LevelDb (Dict String)
memory = record {
  get = λ db key. reading (lookup key db);
  write = λ batch db. some (put_all batch db);
  delete = λ key db. some (erase key db);
  iterate = λ prefix db. ([], true);
}

lookup-put_all :
    (key : String) (batch : List (String × String)) (db : Dict String)
    → lookup key (put_all batch db)
      ≡ elim (last_put key batch) [ none ↦ lookup key db | some v ↦ some v ]
unfolding put_all last_put
lookup-put_all key [] db = refl
lookup-put_all key ((k, v) ∷ batch) db =
    ground (arith, lookup-put_all key batch (insert k v db), lookup-insert k key v db)

some_injective : {A : Type 0} (x y : A) → some x ≡ some y → x ≡ y
some_injective x y e = ground (arith, e)

pub memory-IsLawful : IsLawful memory
memory-IsLawful = record {
  get-write = λ batch db db' key e.
      rw⁻¹ (some_injective (put_all batch db) db' e)
        (rw (lookup-put_all key batch db) (by_last (last_put key batch) (lookup key db)));
  get-delete = λ db db' key other e.
      rw⁻¹ (some_injective (erase key db) db' e)
        (rw (lookup-erase key other db) (by_key (str_eq key other) (lookup other db)));
}
  where
    by_last :
        (last old : Option String)
        → reading (elim last [ none ↦ old | some v ↦ some v ])
          ≡ elim last [ none ↦ reading old | some v ↦ found v ]
    by_last none old = refl
    by_last (some v) old = refl

    by_key :
        (same : Bool) (old : Option String)
        → reading (if same then none else old) ≡ (if same then not_found else reading old)
    by_key true old = refl
    by_key false old = refl
