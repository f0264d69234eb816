-- ===== src/Database/Walk.antt =====
-- Walking the network state along the chain to another block
-- (core/src/record_keeper/database.rs). A `BTreeMap` of heights is iterated in ascending order.
-- Debug assertions and logging are left out. `none` is a search that has used up its fuel.
pub mod Laws
use blockscape.HashMap.{HashMap}
use blockscape.BTreeMap
use blockscape.BTreeMap.{BTreeMap}
use blockscape.Mutation.{Mutation, new, earliest_game_event, u64_max}
use blockscape.Network.Message.{BlockHeader}
use blockscape.Database.Store.{Database, Action, pure, ◌>>=◌, ◌>>◌, assert}
use blockscape.Database.Mutate.{mutate, undo_mutate}
use blockscape.Database.Chain.{
  ChainExternals, get_block_header, get_block, get_blocks_of_height, get_block_mutation, get_contra,
  add_contra, update_current_chain, update_current_block, or_panic,
}
use blockscape.Database.Ancestor.{Paths, latest_common_ancestor, intersect_dist, find_chain_head}
use blockscape.Base.{
  ℕ, suc, ◌+◌, ◌-◌, ◌%◌, ◌^◌, Bool, true, false, not, ◌||◌, Option, none, some, List, [], ◌∷◌,
  reverse, length, ltb, leb, nat_eq, ◌==◌, if◌then◌else◌,
}
use Prim.Native.Nat.{min}

-- The blocks nearer than the intersection, by their heights below `top`.
abbrev heights_of : ℕ → ℕ → HashMap ℕ ℕ → Action (BTreeMap ℕ)
heights_of top dist [] = pure []
heights_of top dist ((k, d) ∷ hashes) = do
  rest ← heights_of top dist hashes
  elim (ltb d dist) [
    | false ↦ pure rest
    | true ↦ assert (leb d top) >> pure (BTreeMap.insert (top - d) k rest)
  ]

module _ (ex : ChainExternals) where
  abbrev same_shard : BlockHeader → BlockHeader → Bool
  same_shard a b = a.shard == b.shard || a.shard == 0 || b.shard == 0

  -- The two lists, for the distances to the intersection.
  abbrev paths_at : HashMap ℕ ℕ → HashMap ℕ ℕ → ℕ → ℕ → Action (Option (BTreeMap ℕ × BTreeMap ℕ))
  paths_at a_hashes b_hashes a_dist b_dist db =
      let a_height = db.head_height in
      (do
        a_heights ← heights_of a_height a_dist a_hashes
        b_heights ← heights_of ((a_height + (2 ^ 64 - a_dist) + b_dist) % 2 ^ 64) b_dist b_hashes
        pure (some (a_heights, b_heights)))
        db

  abbrev paths_of : Option Paths → Action (Option (BTreeMap ℕ × BTreeMap ℕ))
  paths_of none = pure none
  paths_of (some (a_hashes, b_hashes, last_a, last_b)) = do
    a_dist ← or_panic (intersect_dist a_hashes b_hashes last_a last_b).0
    b_dist ← or_panic (intersect_dist a_hashes b_hashes last_a last_b).1
    paths_at a_hashes b_hashes a_dist b_dist

  unfoldable pub calculate_block_path : ℕ → ℕ → ℕ → Action (Option (BTreeMap ℕ × BTreeMap ℕ))
  calculate_block_path fuel a_block b_block = do
    a_head ← get_block_header ex a_block
    b_head ← get_block_header ex b_block
    assert (same_shard a_head b_head)
    found ← latest_common_ancestor ex fuel a_block b_block
    paths_of found

  -- The way down, from the highest block, with the earliest tick so far.
  abbrev pub walk_down : List (ℕ × ℕ) → ℕ → Action ℕ
  walk_down [] tick = pure tick
  walk_down ((h, b) ∷ path) tick = do
    header ← get_block_header ex b
    contra ← get_contra ex b
    undo_mutate ex.base contra
    update_current_block ex header.prev (some ((h + (2 ^ 64 - 1)) % 2 ^ 64))
    walk_down path (min tick (earliest_game_event contra))

  -- The way up, from the lowest block.
  abbrev pub walk_up : List (ℕ × ℕ) → ℕ → Action ℕ
  walk_up [] tick = pure tick
  walk_up ((h, b) ∷ path) tick = do
    block ← get_block ex b
    mutation ← get_block_mutation ex block
    contra ← mutate ex.base mutation
    add_contra ex b contra
    update_current_chain ex h b
    update_current_block ex b (some h)
    walk_up path (min tick (earliest_game_event mutation))

  abbrev pub walk_along : Option (BTreeMap ℕ × BTreeMap ℕ) → Action (Option (ℕ × ℕ))
  walk_along none = pure none
  walk_along (some (a_heights, b_heights)) = do
    down ← walk_down (reverse a_heights) 0
    tick ← walk_up b_heights down
    pure (some (length a_heights, tick))

  abbrev pub walk_from : ℕ → ℕ → ℕ → Action (Option (ℕ × ℕ))
  walk_from fuel a_block b_block = do
    assert (not (b_block == 0))
    path ← calculate_block_path fuel a_block b_block
    walk_along path

  unfoldable pub walk : ℕ → ℕ → Action (Option (ℕ × ℕ))
  unfolding calculate_block_path
  walk fuel b_block db =
      if db.head_block == b_block
      then (pure (some (0, u64_max))) db
      else walk_from fuel db.head_block b_block db

  -- `assert_eq!(blocks.len(), 1)`, and the one block.
  abbrev only_one : List ℕ → Action ℕ
  only_one [] = or_panic none
  only_one (genesis ∷ []) = pure genesis
  only_one (_ ∷ _ ∷ _) = or_panic none

  abbrev walk_to_genesis : Action (Option (ℕ × ℕ))
  walk_to_genesis = do
    blocks ← get_blocks_of_height ex 1
    genesis ← only_one blocks
    block ← get_block ex genesis
    mutation ← get_block_mutation ex block
    mutate ex.base mutation
    update_current_block ex genesis (some 1)
    pure (some (0, u64_max))

  abbrev walk_if_found : ℕ → Option ℕ → Action (Option (ℕ × ℕ))
  walk_if_found fuel none = pure none
  walk_if_found fuel (some head) = walk fuel head

  unfoldable pub walk_to_head : ℕ → Action (Option (ℕ × ℕ))
  unfolding walk
  walk_to_head fuel db =
      if db.head_block == 0
      then walk_to_genesis db
      else (find_chain_head ex fuel >>= walk_if_found fuel) db

  -- The ticks along the ways that `calculate_invalidations_to_block` pretends to walk.
  abbrev pub look_down : List (ℕ × ℕ) → ℕ → Action ℕ
  look_down [] tick = pure tick
  look_down ((h, b) ∷ path) tick = do
    contra ← get_contra ex b
    look_down path (min tick (earliest_game_event contra))

  abbrev pub look_up : List (ℕ × ℕ) → ℕ → Action ℕ
  look_up [] tick = pure tick
  look_up ((h, b) ∷ path) tick = do
    block ← get_block ex b
    mutation ← get_block_mutation ex block
    look_up path (min tick (earliest_game_event mutation))

  abbrev pub look_along : Option (BTreeMap ℕ × BTreeMap ℕ) → Action (Option (ℕ × ℕ × ℕ))
  look_along none = pure none
  look_along (some (a_heights, b_heights)) = do
    down ← look_down (reverse a_heights) 0
    tick ← look_up b_heights down
    pure (some (length a_heights, length b_heights, tick))

  abbrev look_from : ℕ → ℕ → ℕ → Action (Option (ℕ × ℕ × ℕ))
  look_from fuel a_block b_block = do
    assert (not (b_block == 0))
    path ← calculate_block_path fuel a_block b_block
    look_along path

  unfoldable pub calculate_invalidations_to_block : ℕ → ℕ → Action (Option (ℕ × ℕ × ℕ))
  unfolding calculate_block_path
  calculate_invalidations_to_block fuel b_block db =
      if db.head_block == b_block
      then (pure (some (0, 0, u64_max))) db
      else look_from fuel db.head_block b_block db
