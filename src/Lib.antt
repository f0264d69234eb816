-- ===== src/Lib.antt =====
-- Verification of Blockscape: the shared blockchain library (core) and the game of checkers
-- (checkers) that runs on it, with the power grids of the client's world.
--
-- Parts, by the files of the repository:
--   * Event: core/src/primitives/event.rs, the raw events of a plot by tick.
--   * Mutation: core/src/primitives/mutation.rs and the plot events of
--     core/src/record_keeper/events.rs.
--   * Direction, Coord, BoundingBox: core/src/primitives/direction.rs and coord.rs.
--   * GameState: core/src/record_keeper/game_state.rs, the cache of game states; `cache` is
--     `cache_state` here.
--   * Nodes: core/src/network/node.rs, the repository of nodes.
--   * Database: core/src/record_keeper/key.rs and database.rs. Key has the keys and their bytes,
--     Store the rows and the error handling of a method, Stake the stakes of validators, Plots the
--     buckets of plot events, Mutate the making and undoing of mutations, Chain the blocks,
--     transactions and heights, Ancestor the searches along them, Blocks the iterators and the lists of
--     blocks, Walk the walking to another block, Package the packages of
--     core/src/record_keeper/block_package.rs.
--   * Overlay: core/src/record_keeper/db_state.rs, changes on top of a database that is only read.
--     The file itself and Filter have DBDiff, State has DBState, Compile the batch of its changes.
--   * Forging: core/src/forging/epos.rs. The file itself has signatures and waits, Difficulty the
--     validators and the difficulty, Evaluate the forging, Validate the validation of a block.
--   * Checkers: checkers/src/checkers.rs. Piece has players, directions, tiles and events, Board the
--     tiles and indices, Play the playing of an event. Rulebook has checkers/src/rules and the
--     boards of checkers/src/game.rs: Turns and Game are the rules of these names.
--   * Rules: core/src/record_keeper/rules/mutation/shares.rs in Shares, the rule on the shares of
--     transfers; block/merkle_root.rs there in Merkle, with the root of core/src/primitives/block.rs;
--     mutation/duplicates.rs in Duplicates, and the other rules in Checks.
--   * Network: core/src/network/job.rs in Job, the jobs of fetching data; the messages of protocol.rs
--     and the blocks and transactions that they carry in Message; session.rs in Session, with the
--     handling of packets (`Packet::handle`) in Session.Receive and the other methods in
--     Session.Checks; shard.rs in Shard, with the routing of packets in Shard.Packets.
--   * RecordKeeper: core/src/record_keeper/record_keeper.rs; Pending has the pending transactions.
--   * Uint: core/src/primitives/u256.rs, and u160.rs in Uint.U160. Base16: core/src/base16.rs.
--   * Grid: client/src/world/power_grid.rs, the power grids of the client, and networks of them in
--     Net. The search for the parts of a grid has as much fuel as there are segments.
--   * Base, BTreeMap, HashMap and PlotMap are shared: tests, equality, integers of a width, sorted
--     maps and association lists. Tests has the examples.
--
-- A mutation carries plot events; the database files them in buckets of 1000 ticks by the functions
-- of Event, and the other changes as stakes and values. The checkers rules read plot events back,
-- play them on a board and keep boards in a GameState cache. Nodes stands beside, for the network.
--
-- State. A method that changes its object takes the state and returns the new one, with its result.
-- A method of the database returns a result, ok, err or panic, and the database that it leaves. A
-- method named with a leading underscore in the source has the name without it; `_add_event` and its
-- kin are `add_plot_event` and its kin. A BTreeMap is a list with ascending keys, a HashMap an
-- association list in the order of insertion.
--
-- Integers. An i8, i32, i64 or u16 wraps at its width as release builds do; indices and ticks are
-- natural numbers, and the theorems on buckets say below which width they hold. The board is reached
-- only by indices that the theorems show to be in range.
--
-- Parameters. What bincode writes and the hash of a public key are fields of Database.Interface,
-- with the laws that what is written is read back, for values that fit, and that keys of different
-- numbers differ. Signatures, hashes and the logarithm are fields of Forging.Externals, the node's
-- own data and what is outside of a session of Session.Context. Hashes are arguments of Nodes,
-- Network.Job, Rules.Merkle and Database.Chain, what a rule reads from the database one of
-- Rules.Shares.
--
-- Loops. `_init_event_buckets` goes down by the number of buckets, which `init_event_buckets` passes
-- on. `get_plot_events` may run on as long as buckets follow, so it has fuel, as have the searches
-- for the head of the chain and for a common ancestor, and the walks by them, which follow the
-- stored blocks. The loop of the Merkle root has the number of transactions as its fuel.
--
-- `validate` and `calculate_validator_info` of Forging scan as many blocks as the configuration says.
--
-- Sessions. Readings of the clock are arguments. What a session sends and what it hands to the event
-- loop is a list of effects in it. Session.Steps has its methods as a step relation.
--
-- Not modelled: floats (`dist`), logging, files and sockets, RocksDB itself and its errors, JSON
-- forms, adding blocks to the record keeper, the work that packets hand to the event loop, the client
-- of the network, the remote procedure calls, and the units of the client's world.
pub mod Forging
pub mod Overlay
pub mod Base
pub mod Base16
pub mod Uint
pub mod Grid
pub mod BTreeMap
pub mod Event
pub mod Direction
pub mod Coord
pub mod BoundingBox
pub mod HashMap
pub mod PlotMap
pub mod Nodes
pub mod GameState
pub mod Mutation
pub mod Database
pub mod Checkers
pub mod Network
pub mod Rules
pub mod RecordKeeper
pub mod Tests
