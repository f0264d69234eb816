-- ===== src/Database/Key.antt =====
-- Database keys (core/src/record_keeper/key.rs). Block, transaction and account hashes are numbers.
pub mod Same
use blockscape.Coord.{Coord}
use blockscape.Base.{ℕ, ◌/◌, [], ◌∷◌, ◌++◌, Bin}

-- The bytes of `Bin::as_bin` for the types that keys hold; `bincode` writes them.
pub record KeyBytes : Type 0 where
  pub of_u256 : ℕ → Bin
  pub of_u160 : ℕ → Bin
  pub of_u64 : ℕ → Bin
  pub of_coord : Coord → Bin

pub data BlockchainEntry : Type 0 where
  block_header txn_list txn : ℕ → BlockchainEntry

pub data CacheEntry : Type 0 where
  blocks_by_height height_by_block blocks_by_txn txns_by_account txn_receive_time contra_mut :
      ℕ → CacheEntry
  current_head : CacheEntry

pub data NetworkEntry : Type 0 where
  plot : Coord → ℕ → NetworkEntry
  validator_key validator_stake : ℕ → NetworkEntry
  admin_key_id : NetworkEntry
  generic : Bin → NetworkEntry

pub data Key : Type 0 where
  blockchain : BlockchainEntry → Key
  cache : CacheEntry → Key
  network : NetworkEntry → Key

-- The number of ticks of a bucket (`PLOT_EVENT_BUCKET_SIZE`).
abbrev pub bucket_size : ℕ
bucket_size = 1000

abbrev pub prefix : Bin → Bin → Bin
prefix p k = p ++ k

module _ (kb : KeyBytes) where
  abbrev blockchain_bin : BlockchainEntry → Bin
  blockchain_bin (txn h) = prefix (b'T' ∷ []) (kb.of_u256 h)
  blockchain_bin (block_header h) = prefix (b'B' ∷ []) (kb.of_u256 h)
  blockchain_bin (txn_list h) = prefix (b'L' ∷ []) (kb.of_u256 h)

  abbrev cache_bin : CacheEntry → Bin
  cache_bin (blocks_by_height h) = prefix (b'H' ∷ b'G' ∷ b'T' ∷ []) (kb.of_u64 h)
  cache_bin (height_by_block h) = prefix (b'B' ∷ b'H' ∷ b'T' ∷ []) (kb.of_u256 h)
  cache_bin (blocks_by_txn h) = prefix (b'T' ∷ b'B' ∷ b'K' ∷ []) (kb.of_u256 h)
  cache_bin (txns_by_account h) = prefix (b'A' ∷ b'T' ∷ b'N' ∷ []) (kb.of_u160 h)
  cache_bin (txn_receive_time h) = prefix (b'R' ∷ b'C' ∷ b'T' ∷ []) (kb.of_u256 h)
  cache_bin (contra_mut h) = prefix (b'C' ∷ b'M' ∷ b'T' ∷ []) (kb.of_u256 h)
  cache_bin current_head = b'C' ∷ b'H' ∷ b'e' ∷ b'a' ∷ b'd' ∷ []

  abbrev network_bin : NetworkEntry → Bin
  network_bin (plot id tick) =
      prefix (prefix (b'P' ∷ b'L' ∷ b'T' ∷ []) (kb.of_coord id)) (kb.of_u64 (tick / bucket_size))
  network_bin (validator_key k) = prefix (b'V' ∷ b'K' ∷ b'Y' ∷ []) (kb.of_u160 k)
  network_bin (validator_stake k) = prefix (b'V' ∷ b'S' ∷ b'K' ∷ []) (kb.of_u160 k)
  network_bin admin_key_id = b'A' ∷ b'D' ∷ b'M' ∷ b'I' ∷ b'N' ∷ []
  network_bin (generic b) = b

  -- `Key::as_bin`
  abbrev pub as_bin : Key → Bin
  as_bin (blockchain e) = prefix (b'b' ∷ []) (blockchain_bin e)
  as_bin (cache e) = prefix (b'c' ∷ []) (cache_bin e)
  as_bin (network e) = prefix (b'n' ∷ []) (network_bin e)
