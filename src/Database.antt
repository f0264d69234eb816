-- ===== src/Database.antt =====
-- The database of the network state (core/src/record_keeper/database.rs), as the provided methods
-- of `Database` over the store of `DatabaseImpl`. RocksDB is the map from keys to values that it
-- documents: it does not fail here. `bincode` and the hash of a public key are parameters
-- (`Interface`).
pub mod Key
pub mod Interface
pub mod Store
pub mod Stake
pub mod Plots
pub mod Mutate
pub mod Chain
pub mod Ancestor
pub mod Returns
pub mod Blocks
pub mod Walk
pub mod Package
