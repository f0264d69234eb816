-- ===== src/RecordKeeper/Pending.antt =====
-- The methods of the record keeper on pending transactions
-- (core/src/record_keeper/record_keeper.rs). A method that changes the record keeper returns it last.
use blockscape.HashMap
use blockscape.HashMap.{HashMap}
use blockscape.Coord.{Coord, coord_eq}
use blockscape.Event.{RawEvents, add_event}
use blockscape.Mutation.{Change, plot_event}
use blockscape.Network.Message.{BlockHeader, Block, Txn}
use blockscape.Database.Store
use blockscape.Database.Store.{Database}
use blockscape.Database.Chain
use blockscape.Database.Chain.{ChainExternals, get_block_header, insert_hash}
use blockscape.Database.Package.{txn_size}
use blockscape.Database.Plots
use blockscape.Rules.Ruling.{Ruling}
use blockscape.Rules.Merkle.{calculate_merkle_root}
use blockscape.RecordKeeper.{
  RecordKeeper, Pending, Checker, view, Result, done, err, panic, database, logic, rule_failed,
  out_of_memory, new_txn, pending_size, max_pending_txn_mem, plot_events_of,
  is_valid_txn_given_lock,
}
use blockscape.Base.{
  ℕ, ◌+◌, Bool, true, false, ◌&&◌, ◌||◌, Option, none, some, List, [], ◌∷◌, ◌++◌, Bin, contains,
  ltb, leb, nat_eq, list_eq, ◌==◌, length, if◌then◌else◌,
}
use blockscape.Base.Int.{ℤ}

abbrev pub of_store : {A : Type 0} → Store.Result A → Result A
of_store (Store.ok a) = done a
of_store (Store.err e) = err (database e)
of_store Store.panic = panic

abbrev pub keys : Pending → List ℕ
keys [] = []
keys ((hash, entry) ∷ pending) = hash ∷ keys pending

abbrev insert_all : List ℕ → List ℕ → List ℕ
insert_all [] set = set
insert_all (t ∷ ts) set = insert_all ts (insert_hash t set).0

pub record Statistics : Type 0 where
  pub height : ℕ
  pub current_block_hash : ℕ
  pub pending_txns_count : ℕ
  pub pending_txns_size : ℕ

module _ (ex : ChainExternals) where
  unfoldable pub get_txn : ℕ → RecordKeeper → Result Txn
  unfolding Chain.get_txn
  get_txn hash rk = elim (HashMap.get hash rk.pending_txns) [
    | some (time, txn) ↦ done txn
    | none ↦ of_store (Chain.get_txn ex hash rk.db).0
  ]

  -- The blocks of a transaction; `none` for one that is pending.
  unfoldable pub get_txn_blocks : ℕ → RecordKeeper → Result (Option (List ℕ))
  unfolding Chain.get_txn_blocks
  get_txn_blocks txn rk = elim (contains (keys rk.pending_txns) txn) [
    | true ↦ done none
    | false ↦ elim (Chain.get_txn_blocks ex txn rk.db).0 [
      | Store.ok blocks ↦ done (some blocks)
      | Store.err e ↦ err (database e)
      | Store.panic ↦ panic
    ]
  ]

  abbrev created_by : ℕ → Pending → List ℕ → List ℕ
  created_by account [] txns = txns
  created_by account ((hash, (time, txn)) ∷ pending) txns =
      created_by account pending
        (if txn.creator == account then (insert_hash hash txns).0 else txns)

  unfoldable pub get_account_txns : ℕ → RecordKeeper → Result (List ℕ)
  unfolding Chain.get_account_txns
  get_account_txns account rk = elim (Chain.get_account_txns ex account rk.db).0 [
    | Store.ok txns ↦ done (insert_all txns (created_by account rk.pending_txns []))
    | Store.err e ↦ err (database e)
    | Store.panic ↦ panic
  ]

  unfoldable pub get_txn_receive_time : ℕ → RecordKeeper → Result ℤ
  unfolding Chain.get_txn_receive_time
  get_txn_receive_time txn rk = elim (HashMap.get txn rk.pending_txns) [
    | some (time, t) ↦ done time
    | none ↦ of_store (Chain.get_txn_receive_time ex txn rk.db).0
  ]

  -- The change of a pending transaction, if it is an event of the plot. The condition is read as
  -- Rust groups it.
  abbrev pub add_if_relevant : Coord → ℕ → Change → RawEvents → RawEvents
  add_if_relevant plot_id from_tick (plot_event e) events =
      if (leb from_tick e.tick && e.from == plot_id) || contains e.to plot_id
      then (add_event events e.tick e.event).0
      else events
  add_if_relevant plot_id from_tick _ events = events

  abbrev pub add_changes : Coord → ℕ → List Change → RawEvents → RawEvents
  add_changes plot_id from_tick [] events = events
  add_changes plot_id from_tick (change ∷ changes) events =
      add_changes plot_id from_tick changes (add_if_relevant plot_id from_tick change events)

  abbrev pub add_pending_events : Coord → ℕ → Pending → RawEvents → RawEvents
  add_pending_events plot_id from_tick [] events = events
  add_pending_events plot_id from_tick ((hash, (time, txn)) ∷ pending) events =
      add_pending_events plot_id from_tick pending
        (add_changes plot_id from_tick txn.mutation.changes events)

  -- `none` is a run of the database that has used up its fuel.
  unfoldable pub get_plot_events : ℕ → Coord → ℕ → RecordKeeper → Result (Option RawEvents)
  unfolding Plots.get_plot_events add_event
  get_plot_events fuel plot_id from_tick rk =
      elim (Plots.get_plot_events ex.base fuel plot_id from_tick rk.db).0 [
        | Store.ok none ↦ done none
        | Store.ok (some events) ↦
            done (some (add_pending_events plot_id from_tick rk.pending_txns events))
        | Store.err e ↦ err (database e)
        | Store.panic ↦ panic
      ]

  -- The block of all pending transactions on the current one. The merging of hashes and the clock
  -- are arguments.
  abbrev next_block : (ℕ → ℕ → ℕ) → ℤ → List ℕ → BlockHeader → Result Block
  next_block merge_hashes now txns header = elim (calculate_merkle_root merge_hashes txns) [
    | none ↦ panic
    | some root ↦ done (record {
      header = record {
        version = 1;
        timestamp = now;
        shard = if header.shard == 0 then ex.hash_header header else header.shard;
        prev = ex.hash_header header;
        merkle_root = root;
        blob = [];
      };
      txns = txns;
    })
  ]

  unfoldable pub get_stats : RecordKeeper → Result Statistics
  unfolding Chain.get_block_height
  get_stats rk = elim (Chain.get_block_height ex rk.db.head_block rk.db).0 [
    | Store.ok height ↦ done (record {
      height = height;
      current_block_hash = rk.db.head_block;
      pending_txns_count = length rk.pending_txns;
      pending_txns_size = pending_size rk.pending_txns;
    })
    | Store.err e ↦ err (database e)
    | Store.panic ↦ panic
  ]

  unfoldable pub create_block : (ℕ → ℕ → ℕ) → ℤ → RecordKeeper → Result Block
  unfolding get_block_header calculate_merkle_root
  create_block merge_hashes now rk = elim (get_block_header ex rk.db.head_block rk.db).0 [
    | Store.ok header ↦ next_block merge_hashes now (keys rk.pending_txns) header
    | Store.err e ↦ err (database e)
    | Store.panic ↦ panic
  ]

  module _ (k : Checker) (read_id : Bin → Option ℕ) (fuel : ℕ) where
    abbrev pub accept : ℕ → ℤ → Bool → Txn → RecordKeeper → RecordKeeper
    accept hash now fresh txn rk = record rk {
      pending_txns = HashMap.insert hash (now, txn) rk.pending_txns;
      record_events = rk.record_events ++ new_txn fresh txn ∷ [];
      game_events = rk.game_events ++ plot_events_of txn.mutation.changes;
    }

    abbrev pub judge :
        Ruling (Unit {0}) → ℕ → ℤ → Bool → Txn → RecordKeeper → Result Bool × RecordKeeper
    judge (Ruling.ok u) hash now fresh txn rk = (done true, accept hash now fresh txn rk)
    judge (Ruling.broken e) hash now fresh txn rk = (err (logic e), rk)
    judge Ruling.failed hash now fresh txn rk = (err rule_failed, rk)

    -- What is done with a transaction for which there is memory, by its look-up in the database.
    abbrev pub unless_stored :
        Store.Result Txn → ℕ → ℤ → Bool → Txn → RecordKeeper → Result Bool × RecordKeeper
    unless_stored (Store.ok t) hash now fresh txn rk = (done false, rk)
    unless_stored (Store.err (Store.not_found key)) hash now fresh txn rk =
        judge (is_valid_txn_given_lock k (view ex read_id fuel rk.db) rk.pending_txns txn) hash now
          fresh txn rk
    unless_stored (Store.err e) hash now fresh txn rk = (err (database e), rk)
    unless_stored Store.panic hash now fresh txn rk = (panic, rk)

    abbrev pub add_new : ℕ → ℤ → Bool → Txn → RecordKeeper → Result Bool × RecordKeeper
    add_new hash now fresh txn rk =
        if ltb max_pending_txn_mem (pending_size rk.pending_txns + txn_size txn)
        then (err out_of_memory, rk)
        else unless_stored (Chain.get_txn ex hash rk.db).0 hash now fresh txn rk

    -- By the look-up of a transaction that is not pending.
    abbrev pub unless_known :
        Result Txn → ℕ → ℤ → Bool → Txn → RecordKeeper → Result Bool × RecordKeeper
    unless_known (done t) hash now fresh txn rk = (done false, rk)
    unless_known (err e) hash now fresh txn rk = add_new hash now fresh txn rk
    unless_known panic hash now fresh txn rk = (panic, rk)

    unfoldable pub add_pending_txn : Txn → Bool → ℤ → RecordKeeper → Result Bool × RecordKeeper
    unfolding get_txn is_valid_txn_given_lock view
    add_pending_txn txn fresh now rk =
        let hash = ex.hash_txn txn in
        if HashMap.contains_key hash rk.pending_txns
        then (done false, rk)
        else unless_known (get_txn hash rk) hash now fresh txn rk

    -- `is_valid_txn`
    unfoldable pub is_valid_txn : Txn → RecordKeeper → Ruling (Unit {0})
    unfolding is_valid_txn_given_lock view
    is_valid_txn txn rk = is_valid_txn_given_lock k (view ex read_id fuel rk.db) rk.pending_txns txn
