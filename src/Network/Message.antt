-- ===== src/Network/Message.antt =====
-- Messages between nodes (core/src/network/protocol.rs), with the blocks and transactions that they
-- carry (core/src/primitives/block.rs and txn.rs). Hashes are numbers, times are milliseconds.
use blockscape.Mutation.{Mutation}
use blockscape.Nodes.{Node}
use blockscape.Base.{ℕ, List, Bin}
use blockscape.Base.Int.{ℤ}

pub record BlockHeader : Type 0 where
  pub version : ℕ
  pub timestamp : ℤ
  pub shard : ℕ
  pub prev : ℕ
  pub merkle_root : ℕ
  pub blob : Bin

pub record Block : Type 0 where
  pub header : BlockHeader
  pub txns : List ℕ

pub record Txn : Type 0 where
  pub timestamp : ℤ
  pub creator : ℕ
  pub mutation : Mutation
  pub signature : Bin

pub data DataRequestError : Type 0 where
  hashes_not_found : List ℕ → DataRequestError
  rate_exceeded network_not_available internal_error : DataRequestError

pub data ByeReason : Type 0 where
  exit exit_permanent timeout abuse : ByeReason

pub data Message : Type 0 where
  introduce : ℕ → Node → ℕ → Message
  ping pong : ℤ → Message
  find_nodes : ℕ → ℕ → Message
  node_list : List Node → ℕ → ℕ → Message
  new_transaction : Txn → Message
  new_block : Block → Message
  broadcast : ℕ → Bin → Message
  sync_blocks : ℕ → ℕ → Message
  query_data : List ℕ → Message
  chain_data : ℕ → Bin → Message
  spot_chain_data : List Block → List Txn → Message
  bye : ByeReason → Message
  data_error : DataRequestError → Message
