-- ===== src/Rules/Merkle.antt =====
-- The Merkle root of a block (core/src/primitives/block.rs) and the rule that checks it
-- (core/src/record_keeper/rules/block/merkle_root.rs). The hash of two hashes is a parameter.
use blockscape.Network.Message.{Block}
use blockscape.Base.{
  ℕ, zero, suc, ◌≤◌, ◌≡◌, refl, Bool, false, Option, none, some, List, [], ◌∷◌, length, nat_eq,
  ◌==◌, arith,
}

module _ (merge_hashes : ℕ → ℕ → ℕ) where
  -- One round of the loop: the hashes of each two, and the last if it has none beside it.
  abbrev pub level : List ℕ → List ℕ
  level [] = []
  level (x ∷ []) = x ∷ []
  level (x ∷ y ∷ hashes) = merge_hashes x y ∷ level hashes

  -- The loop, on fuel.
  unfoldable pub reduce : ℕ → List ℕ → Option ℕ
  reduce fuel [] = some 0
  reduce fuel (x ∷ []) = some x
  reduce zero (x ∷ y ∷ hashes) = none
  reduce (suc fuel) (x ∷ y ∷ hashes) = reduce fuel (level (x ∷ y ∷ hashes))

  unfoldable pub calculate_merkle_root : List ℕ → Option ℕ
  unfolding reduce
  calculate_merkle_root txn_set = reduce (length txn_set) txn_set

  -- `MerkleRoot::is_valid`; `false` is the error of an invalid root.
  unfoldable pub is_valid : Block → Bool
  unfolding calculate_merkle_root
  is_valid block = elim (calculate_merkle_root block.txns) [
    | none ↦ false
    | some root ↦ block.header.merkle_root == root
  ]

  level_shorter : (hashes : List ℕ) → length (level hashes) ≤ length hashes
  level_shorter [] = omega arith
  level_shorter (x ∷ []) = omega arith
  level_shorter (x ∷ y ∷ hashes) = ground (arith, level_shorter hashes)

  reduce_total :
      (fuel : ℕ) (hashes : List ℕ)
      → length hashes ≤ fuel
      → (root : ℕ) × (reduce fuel hashes ≡ some root)
  unfolding reduce
  reduce_total fuel [] h = (0, refl)
  reduce_total fuel (x ∷ []) h = (x, refl)
  reduce_total zero (x ∷ y ∷ hashes) h = absurd (omega arith)
  reduce_total (suc fuel) (x ∷ y ∷ hashes) h =
      reduce_total fuel (level (x ∷ y ∷ hashes)) (ground (arith, level_shorter hashes))

  -- Every list of transactions has a Merkle root: the fuel of the loop is enough.
  pub calculate_merkle_root_total :
      (txns : List ℕ) → (root : ℕ) × (calculate_merkle_root txns ≡ some root)
  unfolding calculate_merkle_root
  calculate_merkle_root_total txns = reduce_total (length txns) txns (omega arith)
