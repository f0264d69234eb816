-- ===== src/Database/Chain/Laws.antt =====
-- What the caches of the block chain answer.
use blockscape.Database.Key.{as_bin, cache, txns_by_account, blocks_by_txn}
use blockscape.Database.Store.{Database, ok, get_raw, put_raw}
use blockscape.Database.Chain.{
  ChainExternals, get_account_txns, add_txn_to_account, update_current_block, get_block_height,
}
use blockscape.Base.{ℕ, ◌≡◌, some, list_beq_iff, list_eq, nat_eq, Option-cases, arith}

-- Once the current block has been set with its height, it is the height of this block, whatever
-- the caches hold.
pub get_block_height-update_current_block :
    (ex : ChainExternals) (db : Database) (hash height : ℕ)
    → (get_block_height ex hash (update_current_block ex hash (some height) db).1).0 ≡ ok height
unfolding get_block_height update_current_block put_raw
get_block_height-update_current_block ex db hash height = ground arith

-- Registering a transaction with an account has no effect on the transactions that are found for
-- any account.
pub get_account_txns-add_txn_to_account :
    (ex : ChainExternals) (db : Database) (account t other : ℕ)
    → (get_account_txns ex other (add_txn_to_account ex account t db).1).0
      ≡ (get_account_txns ex other db).0
unfolding get_account_txns add_txn_to_account get_raw put_raw
get_account_txns-add_txn_to_account ex db account t other = ground (
  arith,
  Option-cases (db.rows (as_bin ex.base.key_bytes (cache (txns_by_account account)))),
  Option-cases (db.rows (as_bin ex.base.key_bytes (cache (txns_by_account other)))),
  list_beq_iff (as_bin ex.base.key_bytes (cache (blocks_by_txn t)))
      (as_bin ex.base.key_bytes (cache (txns_by_account other))),
)
