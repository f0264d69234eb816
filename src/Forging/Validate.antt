-- ===== src/Forging/Validate.antt =====
-- The validation of a forged block (`validate` of core/src/forging/epos.rs): `none` is a block that
-- is valid, and `some` the reason why it is not.
use blockscape.Network.Message.{Block, BlockHeader}
use blockscape.Forging.{
  EposConfig, EposBlockData, Externals, Keeper, Forged, ok, err, panic, ForgeError, no_block,
  no_stake, bad_blob, bad_difficulty, bad_count, bad_signatures, bad_timestamp, too_early,
  failed_info, ◌>>=◌, or_err, of_result, low_u64, gen_wait, check_sigs,
}
use blockscape.Forging.Difficulty.{calculate_validator_info, calculate_expected_difficulty}
use blockscape.Base.{
  ℕ, ◌+◌, ◌%◌, ◌^◌, Bool, true, false, Option, none, some, List, [], ◌∷◌, Bin, length, nat_eq, ◌==◌,
  if◌then◌else◌,
}
use blockscape.Base.Int.{ℤ, ltb_ℤ}
use blockscape.Base.Words.{as_usize}

module _ (x : Externals) (rk : Keeper) (config : EposConfig) where
  -- The sum of the waits of the signatures.
  abbrev pub total_wait : ℕ → ℕ → List (Bin × ℕ) → ℕ → Forged ℕ
  total_wait diff target [] wait = ok wait
  total_wait diff target (s ∷ sigs) wait = do
    stake ← of_result no_stake (rk.get_validator_stake (x.hash_pub_key s.0))
    w ← gen_wait config diff stake (low_u64 target) (low_u64 s.1)
    total_wait diff target sigs ((wait + w) % 2 ^ 64)

  abbrev pub require : Bool → ForgeError → Forged (Unit {0})
  require true e = ok tt
  require false e = err e

  -- An error of the difficulty is a panic.
  abbrev pub expect : Forged ℕ → Forged ℕ
  expect (ok d) = ok d
  expect (err e) = panic
  expect panic = panic

  -- An error of the scan is reported as one.
  abbrev pub info_or : Forged (ℕ × ℕ) → Forged (ℕ × ℕ)
  info_or (ok i) = ok i
  info_or (err e) = err failed_info
  info_or panic = panic

  abbrev pub check_time : Block → ℤ → ℕ → BlockHeader → Forged (Unit {0})
  check_time block now wait prev_block =
      require (as_usize block.header.timestamp == (as_usize prev_block.timestamp + wait) % 2 ^ 64)
        bad_timestamp
      >>= λ _. if ltb_ℤ now block.header.timestamp then err too_early else ok tt

  abbrev pub check_wait : Block → ℤ → ℕ → Forged (Unit {0})
  check_wait block now wait =
      of_result no_block (rk.get_block_header block.header.prev) >>= check_time block now wait

  -- The checks of the decoded data, of which the first that fails is the reason.
  abbrev pub check_data : Block → ℤ → ℕ → ℕ × ℕ → EposBlockData → Forged (Unit {0})
  check_data block now diff info d = require (d.difficulty == diff) bad_difficulty >>= λ _.
      require (length d.sigs == info.1) bad_count >>= λ _.
      require (check_sigs x d info.0) bad_signatures >>= λ _.
      total_wait diff info.0 d.sigs 0 >>= check_wait block now

  abbrev pub check_info : Block → ℤ → ℕ → ℕ × ℕ → Forged (Unit {0})
  check_info block now diff info =
      or_err bad_blob (x.data_coder.deserialize block.header.blob)
      >>= check_data block now diff info

  abbrev pub check_diff : Block → ℤ → ℕ → Forged (Unit {0})
  check_diff block now diff =
      info_or (calculate_validator_info x rk config block.header.prev) >>= check_info block now diff

  -- The reason why a block is not valid.
  abbrev pub reason : Forged (Unit {0}) → Forged (Option ForgeError)
  reason (ok u) = ok none
  reason (err e) = ok (some e)
  reason panic = panic

  unfoldable pub validate : Block → ℤ → Forged (Option ForgeError)
  unfolding calculate_validator_info calculate_expected_difficulty check_sigs gen_wait as_usize
  validate block now =
      reason (expect (calculate_expected_difficulty x rk config block) >>= check_diff block now)
