-- ===== src/Forging/Difficulty.antt =====
-- The validators and the difficulty that a block must have (core/src/forging/epos.rs).
use blockscape.Network.Message.{Block, BlockHeader}
use blockscape.Forging.{
  EposConfig, Externals, Keeper, Forged, ok, panic, no_block, no_height, ◌>>=◌, unwrap, of_result,
  max, div, decode_relevant_validation_data,
}
use blockscape.Base.{
  ℕ, zero, suc, ◌+◌, ◌-◌, ◌*◌, ◌%◌, ◌^◌, List, [], ◌∷◌, ◌++◌, Bin, contains, length, ltb, nat_eq,
  ◌==◌, if◌then◌else◌,
}
use blockscape.Base.Words.{add_i64, neg_i64, as_usize}

module _ (x : Externals) (rk : Keeper) (config : EposConfig) where
  -- The loop of `calculate_validator_info`: the headers back from a block, without the first one
  -- of the chain, at most as many as the scan has rounds left.
  unfoldable pub scan : ℕ → ℕ → List BlockHeader → Forged (List BlockHeader)
  scan zero p blocks = ok blocks
  scan (suc n) p blocks = of_result no_block (rk.get_block_header p) >>= λ b.
      if b.prev == 0 then ok blocks else scan n b.prev (blocks ++ b ∷ [])

  -- The validators, each once, and the bytes of the signatures.
  abbrev pub gather : List BlockHeader → List ℕ → Bin → Forged (List ℕ × Bin)
  gather [] validators input = ok (validators, input)
  gather (b ∷ blocks) validators input = decode_relevant_validation_data x b >>= λ d.
      gather blocks (if contains validators d.0 then validators else validators ++ d.0 ∷ [])
        (input ++ x.to_big_endian d.1)

  -- The target, and the number of signatures that a block needs.
  unfoldable pub calculate_validator_info : ℕ → Forged (ℕ × ℕ)
  unfolding scan decode_relevant_validation_data
  calculate_validator_info prev = do
    blocks ← scan config.validators_scan prev []
    found ← gather blocks [] []
    ok (
      x.from_big_endian (x.sha3_256 (x.sha3_256 found.1)),
      max (x.log (max (length found.0) 1) config.validators_count_base) 1,
    )

  -- The walk back over so many blocks.
  abbrev pub walk_back : ℕ → ℕ → Forged ℕ
  walk_back zero hash = ok hash
  walk_back (suc n) hash = of_result no_block (rk.get_block hash) >>= λ b. walk_back n b.header.prev

  -- `unwrap` of the data of a block.
  abbrev pub difficulty_of : Block → Forged ℕ
  difficulty_of b = unwrap (x.data_coder.deserialize b.header.blob) >>= λ d. ok d.difficulty

  -- The milliseconds from the second block to the first, as a `u64`.
  abbrev pub elapsed : Block → Block → ℕ
  elapsed pb b = as_usize (add_i64 pb.header.timestamp (neg_i64 b.header.timestamp))

  abbrev pub recalculate : ℕ → ℕ → Forged ℕ
  recalculate n prev = do
    pb ← of_result no_block (rk.get_block prev)
    hash ← walk_back (n - 1) prev
    b ← of_result no_block (rk.get_block hash)
    last_diff ← difficulty_of pb
    div ((((config.rate_target * n) % 2 ^ 64) * last_diff) % 2 ^ 64) (elapsed pb b)

  -- The number of blocks of an epoch, of which the first has two fewer.
  abbrev pub epoch : ℕ → ℕ
  epoch height =
      if height == config.recalculate_blocks
      then (config.recalculate_blocks + (2 ^ 64 - 2)) % 2 ^ 64
      else config.recalculate_blocks

  -- The difficulty at a height, for a remainder of the height by the length of an epoch.
  abbrev pub difficulty_at : ℕ → ℕ → ℕ → Forged ℕ
  difficulty_at zero height prev = recalculate (epoch height) prev
  difficulty_at (suc r) height prev =
      if ltb height config.recalculate_blocks
      then ok 1
      else (of_result no_block (rk.get_block prev) >>= difficulty_of)

  -- `calculate_expected_difficulty`
  unfoldable pub calculate_expected_difficulty : Block → Forged ℕ
  unfolding add_i64 neg_i64 as_usize
  calculate_expected_difficulty block = do
    h ← of_result no_height (rk.get_block_height block.header.prev)
    let height = (h + 1) % 2 ^ 64
    if config.recalculate_blocks == 0
        then panic
        else difficulty_at (height % config.recalculate_blocks) height block.header.prev
