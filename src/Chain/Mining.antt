-- ===== src/Chain/Mining.antt =====
-- `MineBlock` of blockchain/block.go, on fuel: one unit for each nonce that is tried.
use mathlib.Core.Path.{subst}
use tc_node_validator_go.Base.{
  ℕ, zero, suc, ◌+◌, ◌%◌, ◌^◌, ◌<◌, String, ◌≡◌, refl, Bool, true, false, not, some, ℤ, pos, negsuc,
  eq_iff, arith, if◌then◌else◌, Bool-cases, inl, inr,
}
use tc_node_validator_go.Chain.Block.{
  Block, Platform, calculate_hash, leading_zeros, hash_valid_hash, has_valid_hash,
}
use tc_node_validator_go.Chain.Blockchain.{next_index}

-- `crashed`: a negative difficulty, or one above the length of the hash, is out of range.
pub data Mining (F J : Type 0) : Type 0 where
  mined : Block F J → Mining F J
  crashed : Mining F J
  still_mining : Mining F J

unfoldable pub has_chars : ℕ → String → Bool
has_chars zero s = true
has_chars (suc d) String.[] = false
has_chars (suc d) (String.◌∷◌ c s) = has_chars d s

module _ {F J : Type 0} (p : Platform F J) where
  abbrev pub hashed : Block F J → Block F J
  hashed b = record b { hash = calculate_hash p b }

  abbrev pub with_nonce : ℕ → Block F J → Block F J
  with_nonce nonce b = record b { nonce = nonce }

  unfoldable pub mine : ℕ → ℕ → Block F J → Mining F J
  mine zero d b = still_mining
  mine (suc fuel) d b =
      let more = mine fuel d (with_nonce (next_index b.nonce) (hashed b)) in
      if not (has_chars d (calculate_hash p b))
      then crashed
      else if leading_zeros d (calculate_hash p b)
      then mined (hashed b)
      else more

  unfoldable pub mine_block : ℕ → ℤ → Block F J → Mining F J
  mine_block fuel (pos d) b = mine fuel d b
  mine_block fuel (negsuc d) b = crashed

  -- A block that differs from another in its nonce and its hash only, and has a valid hash.
  pub record IsMined (d : ℕ) (b b' : Block F J) : Type 0 where
    pub nonce : ℕ
    pub same : b' ≡ hashed (with_nonce nonce b)
    pub valid : has_valid_hash p b' (pos d) ≡ some true

  hashed-IsMined :
      (d : ℕ) (b : Block F J) → leading_zeros d (calculate_hash p b) ≡ true → IsMined d b (hashed b)
  unfolding has_valid_hash hash_valid_hash calculate_hash
  hashed-IsMined d b h = record {
    nonce = b.nonce;
    same = refl;
    valid = rw ((eq_iff (calculate_hash p b) (calculate_hash p b)).1 refl, h) refl;
  }

  later-IsMined :
      (d n : ℕ) (b b' : Block F J) → IsMined d (with_nonce n (hashed b)) b' → IsMined d b b'
  unfolding calculate_hash
  later-IsMined d n b b' m = record { nonce = m.nonce; same = m.same; valid = m.valid }

  -- If no hash is shorter than the difficulty, and the nonce that lies `k` steps ahead, around the
  -- end of 64 bits, gives a hash with enough zeros, then mining ends after at most `k + 1` nonces.
  -- The mined block differs in its nonce and hash only, and its hash is valid.
  pub mine_block-IsMined :
      (k d : ℕ) (b : Block F J)
      → b.nonce < 2 ^ 64
      → ((c : Block F J) → has_chars d (calculate_hash p c) ≡ true)
      → leading_zeros d (calculate_hash p (with_nonce ((b.nonce + k) % 2 ^ 64) b)) ≡ true
      → (b' : Block F J) × (mine_block (suc k) (pos d) b ≡ mined b') × IsMined d b b'
  unfolding mine_block mine calculate_hash
  mine_block-IsMined zero d b small long found =
      let here : (b.nonce + 0) % 2 ^ 64 ≡ b.nonce = omega (arith, small) in
      let at_once : leading_zeros d (calculate_hash p b) ≡ true =
        subst (λ n. leading_zeros d (calculate_hash p (with_nonce n b)) ≡ true) here found in
      (hashed b, rw (long b, at_once) refl, hashed-IsMined d b at_once)
  mine_block-IsMined (suc k) d b small long found =
      elim (Bool-cases (leading_zeros d (calculate_hash p b))) [
        | inl e ↦ (hashed b, rw (long b, e) refl, hashed-IsMined d b e)
        | inr e ↦
            let next = with_nonce (next_index b.nonce) (hashed b) in
            let steps : (b.nonce + suc k) % 2 ^ 64 ≡ (next_index b.nonce + k) % 2 ^ 64 =
              omega arith in
            let (b', ends, is_mined) = mine_block-IsMined k d next (omega arith) long (
              subst (λ n. leading_zeros d (calculate_hash p (with_nonce n b)) ≡ true) steps
                found) in
            (b', rw (long b, e) ends, later-IsMined d (next_index b.nonce) b b' is_mined)
      ]
