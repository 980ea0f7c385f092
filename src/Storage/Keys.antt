-- ===== src/Storage/Keys.antt =====
-- The keys of the database are told apart.
use Prim.Native.Char.{code}
use Prim.Native.String.{◌++◌ as str_append}
use text.Mathlib.TextLemmas.{cons-append, append_cancel_left}
use tc_node_validator_go.Base.{
  ℕ, suc, zero, String, ◌≡◌, ◌≢◌, ap, refl, Bool, true, false, ◌<◌, ◌^◌, some, nil_if_empty, arith,
  str_eq, eq_iff, Bool-cases, inl, inr, ◌==◌,
}
use tc_node_validator_go.Chain.Block.{Block, format_uint}
use tc_node_validator_go.Storage.Store.{Codec, index_key, hash_key, height_key, system_key}

-- The character at a place, 0 at none.
unfoldable pub mark : ℕ → String → ℕ
mark n String.[] = 0
mark zero (String.◌∷◌ c s) = code c
mark (suc n) (String.◌∷◌ c s) = mark n s

unfoldable pub has_place : ℕ → String → Bool
has_place n String.[] = false
has_place zero (String.◌∷◌ c s) = true
has_place (suc n) (String.◌∷◌ c s) = has_place n s

pub mark-append : (n : ℕ) (a s : String) → has_place n a ≡ true → mark n (str_append a s) ≡ mark n a
unfolding mark has_place
mark-append n String.[] s h = cc
mark-append zero (String.◌∷◌ c a) s h = rw (cons-append c a s) refl
mark-append (suc n) (String.◌∷◌ c a) s h = rw (cons-append c a s) (mark-append n a s h)

index-mark : (i : ℕ) → mark 5 (index_key i) ≡ 105
unfolding mark has_place
index-mark i = mark-append 5 "blockindex_" (format_uint i) refl

hash-mark : (hash : String) → mark 5 (hash_key hash) ≡ 104
unfolding mark has_place
hash-mark hash = mark-append 5 "blockhash_" hash refl

height-mark : mark 5 height_key ≡ 116
unfolding mark
height-mark = refl

pub apart : (a b : String) → mark 5 a ≢ mark 5 b → str_eq a b ≡ false
apart a b h = elim (Bool-cases (str_eq a b)) [
  | inl e ↦ absurd (h (ap (mark 5) ((eq_iff a b).0 e)))
  | inr e ↦ e
]

pub hash-index : (hash : String) (i : ℕ) → str_eq (hash_key hash) (index_key i) ≡ false
hash-index hash i = apart _ _ (λ e. omega (arith, index-mark i, hash-mark hash))

pub height-index : (i : ℕ) → str_eq height_key (index_key i) ≡ false
height-index i = apart _ _ (λ e. omega (arith, index-mark i, height-mark))

pub index-hash : (i : ℕ) (hash : String) → str_eq (index_key i) (hash_key hash) ≡ false
index-hash i hash = apart _ _ (λ e. omega (arith, index-mark i, hash-mark hash))

pub height-hash : (hash : String) → str_eq height_key (hash_key hash) ≡ false
height-hash hash = apart _ _ (λ e. omega (arith, hash-mark hash, height-mark))

pub index-height : (i : ℕ) → str_eq (index_key i) height_key ≡ false
index-height i = apart _ _ (λ e. omega (arith, index-mark i, height-mark))

pub hash-height : (hash : String) → str_eq (hash_key hash) height_key ≡ false
hash-height hash = apart _ _ (λ e. omega (arith, hash-mark hash, height-mark))

system-mark : (name : String) → mark 5 (system_key name) ≡ 110
unfolding mark has_place
system-mark name = mark-append 5 "syscontract_" name refl

pub index-system : (i : ℕ) (name : String) → str_eq (index_key i) (system_key name) ≡ false
index-system i name = apart _ _ (λ e. omega (arith, index-mark i, system-mark name))

pub hash-system : (hash name : String) → str_eq (hash_key hash) (system_key name) ≡ false
hash-system hash name = apart _ _ (λ e. omega (arith, hash-mark hash, system-mark name))

-- A block after `json.Marshal` and `json.Unmarshal`: `omitempty` leaves out empty slices, which come
-- back nil, and fees that are 0.
unfoldable pub reloaded : {F J K V : Type 0} → Codec F J K V → Block F J → Block F J
unfolding nil_if_empty
reloaded c b = record b {
  transactions = nil_if_empty b.transactions;
  critical_processes = nil_if_empty b.critical_processes;
  total_fees = c.kept_fees b.total_fees;
}

-- What `encoding/json` and `fmt` document: a block that was marshalled reads back as `reloaded`, and
-- a uint64 that was printed is scanned as it was.
pub record IsFaithful {F J K V : Type 0} (c : Codec F J K V) : Type 0 where
  pub read-block_json :
      (b : Block F J) (text : String)
      → c.block_json b ≡ some text
      → c.read_block text ≡ some (reloaded c b)
  pub scan-format_uint : (n : ℕ) → n < 2 ^ 64 → c.scan_uint (format_uint n) ≡ some n

module _ {F J K V : Type 0} (c : Codec F J K V) (faithful : IsFaithful c) where
  same_index : (i j : ℕ) → i < 2 ^ 64 → j < 2 ^ 64 → index_key i ≡ index_key j → i ≡ j
  same_index i j hi hj e =
      let texts = append_cancel_left "blockindex_" (format_uint i) (format_uint j) e in
      let scans = ap c.scan_uint texts in
      ground (arith, faithful.scan-format_uint i hi, faithful.scan-format_uint j hj, scans)

  -- Different indices have different keys.
  pub index-index :
      (i j : ℕ) → i < 2 ^ 64 → j < 2 ^ 64 → str_eq (index_key i) (index_key j) ≡ i == j
  index-index i j hi hj = elim (Bool-cases (i == j)) [
    | inl e ↦ rw e ((eq_iff _ _).1 (ap index_key (ground (arith, e))))
    | inr e ↦ elim (Bool-cases (str_eq (index_key i) (index_key j))) [
      | inl same ↦ ground (arith, same_index i j hi hj ((eq_iff _ _).0 same), e)
      | inr differ ↦ rw (differ, e) refl
    ]
  ]
