-- ===== src/RecordKeeper.antt =====
-- The record keeper's pending transactions and its checks of validity
-- (core/src/record_keeper/record_keeper.rs). What it has told its listeners is listed in it. Locks
-- are left out: a method runs by itself. Sizes are those of values in memory, which do not wrap.
pub mod Pending
pub mod Laws
use blockscape.HashMap
use blockscape.HashMap.{HashMap}
use blockscape.Coord.{Coord, coord_eq}
use blockscape.Event.{RawEvents, add_event}
use blockscape.Mutation.{
  Change, admin, block_reward, plot_event, new_validator, slash, transfer, PlotEvent,
}
use blockscape.Network.Message.{BlockHeader, Block, Txn}
use blockscape.Database.Key.{network, admin_key_id}
use blockscape.Database.Store
use blockscape.Database.Store.{Database, get_raw}
use blockscape.Database.Chain.{
  ChainExternals, get_block, get_block_header, get_block_height, get_txn_blocks, get_txn,
  get_validator_key,
}
use blockscape.Database.Chain
use blockscape.Database.Package.{txn_size}
use blockscape.Database.Plots
use blockscape.Rules.Ruling.{
  Ruling, ok, broken, failed, ◌>>=◌, unless, invalid_merkle_root, LogicError,
}
use blockscape.Rules.Checks.{
  valid_plot_events, valid_admin, valid_new_validator, valid_signature, valid_time,
}
use blockscape.Rules.Duplicates
use blockscape.Rules.Merkle
use blockscape.Base.{
  ℕ, zero, suc, ◌+◌, ◌*◌, Bool, true, false, ◌&&◌, ◌||◌, Option, none, some, List, [], ◌∷◌, ◌++◌,
  map, Bin, contains, ltb, leb, nat_eq, list_eq, ◌==◌, if◌then◌else◌,
}
use blockscape.Base.Int.{ℤ}

abbrev pub max_pending_txn_mem : ℕ
max_pending_txn_mem = 128 * 1024 * 1024

-- What the rules and checks read from a state.
pub record View : Type 0 where
  pub validator_key : ℕ → Store.Result Bin
  pub admin_id : Ruling ℕ
  pub is_known : ℕ → Bool
  pub plot_events : Coord → ℕ → Ruling RawEvents
  pub stored_txn : ℕ → Ruling Txn
  pub header : ℕ → Ruling BlockHeader

abbrev pub Mutations : Type 0
Mutations = List (Change × ℕ)

-- Signatures, the hash of a public key, and the custom rules of the configuration.
pub record Checker : Type 0 where
  pub key_from_der : Bin → Bool
  pub verify : Txn → Bin → Bool
  pub hash_pub_key : Bin → ℕ
  pub rules : List (View → Mutations → Ruling (Unit {0}))
  pub merge_hashes : ℕ → ℕ → ℕ

pub data RecordEvent : Type 0 where
  new_block : Bool → Bool → Block → RecordEvent
  new_txn : Bool → Txn → RecordEvent
  state_invalidated : ℕ → ℕ → ℕ → RecordEvent

abbrev pub Pending : Type 0
Pending = HashMap ℕ (ℤ × Txn)

pub record RecordKeeper : Type 0 where
  pub db : Database
  pub pending_txns : Pending
  pub record_events : List RecordEvent
  pub game_events : List PlotEvent

unfoldable pub new : Database → RecordKeeper
new db = record { db = db; pending_txns = []; record_events = []; game_events = [] }

pub data Error : Type 0 where
  database : Store.Error → Error
  logic : LogicError → Error
  rule_failed out_of_memory : Error

pub data Result (A : Type 0) : Type 0 where
  done : A → Result A
  err : Error → Result A
  panic : Result A

abbrev pub pending_size : Pending → ℕ
pending_size [] = 0
pending_size ((hash, (time, txn)) ∷ pending) = txn_size txn + pending_size pending

abbrev pub with_creator : Txn → List Change → Mutations
with_creator txn [] = []
with_creator txn (change ∷ changes) = (change, txn.creator) ∷ with_creator txn changes

abbrev pub mutation_of : Txn → Mutations
mutation_of txn = with_creator txn txn.mutation.changes

abbrev pub all_pending : Pending → Mutations
all_pending [] = []
all_pending ((hash, (time, txn)) ∷ pending) = mutation_of txn ++ all_pending pending

abbrev pub plot_events_of : List Change → List PlotEvent
plot_events_of [] = []
plot_events_of (plot_event e ∷ changes) = e ∷ plot_events_of changes
plot_events_of (_ ∷ changes) = plot_events_of changes

module _ (k : Checker) where
  unfoldable pub is_valid_txn_given_state : View → Txn → Ruling (Unit {0})
  unfolding valid_signature valid_admin valid_new_validator Duplicates.is_valid_txn
  is_valid_txn_given_state state txn =
      valid_signature state.validator_key k.key_from_der k.verify txn >>= λ _.
      valid_admin state.admin_id txn >>= λ _. valid_new_validator txn >>= λ _.
      Duplicates.is_valid_txn state.is_known state.plot_events k.hash_pub_key txn

  abbrev custom_rules :
      List (View → Mutations → Ruling (Unit {0})) → View → Mutations → Ruling (Unit {0})
  custom_rules [] state mutation = ok tt
  custom_rules (rule ∷ rules) state mutation =
      rule state mutation >>= λ _. custom_rules rules state mutation

  unfoldable pub is_valid_mutation_given_state : View → Mutations → Ruling (Unit {0})
  unfolding valid_plot_events Duplicates.is_valid
  is_valid_mutation_given_state state mutation = valid_plot_events mutation >>= λ _.
      Duplicates.is_valid state.is_known state.plot_events k.hash_pub_key mutation >>= λ _.
      custom_rules k.rules state mutation

  -- The state is that of the database.
  unfoldable pub is_valid_txn_given_lock : View → Pending → Txn → Ruling (Unit {0})
  unfolding is_valid_txn_given_state is_valid_mutation_given_state
  is_valid_txn_given_lock state pending txn = is_valid_txn_given_state state txn >>= λ _.
      is_valid_mutation_given_state state (all_pending pending ++ mutation_of txn)

  abbrev pending_or_stored : View → Pending → ℕ → Ruling Txn
  pending_or_stored state pending hash = elim (HashMap.get hash pending) [
    | some (time, txn) ↦ ok txn
    | none ↦ state.stored_txn hash
  ]

  -- The loop over the transactions of a block, each of which is valid by itself.
  abbrev collect_valid : View → Pending → List ℕ → Ruling Mutations
  collect_valid state pending [] = ok []
  collect_valid state pending (hash ∷ hashes) = pending_or_stored state pending hash >>= λ txn.
      is_valid_txn_given_state state txn >>= λ _.
      collect_valid state pending hashes >>= λ rest. ok (mutation_of txn ++ rest)

  unfoldable same_root : Block → Ruling (Unit {0})
  unfolding Merkle.is_valid
  same_root block = unless (Merkle.is_valid k.merge_hashes block) invalid_merkle_root

  -- The clock is read for the rule on the time stamp.
  unfoldable pub is_valid_block_given_state : ℤ → View → Pending → Block → Ruling (Unit {0})
  unfolding valid_time is_valid_txn_given_state is_valid_mutation_given_state same_root
  is_valid_block_given_state now state pending block = valid_time state.header now block >>= λ _.
      same_root block >>= λ _. collect_valid state pending block.txns >>= λ mutation.
      is_valid_mutation_given_state state mutation

abbrev pub as_ruling : {A : Type 0} → Store.Result A → Ruling A
as_ruling (Store.ok a) = ok a
as_ruling (Store.err e) = failed
as_ruling Store.panic = failed

abbrev pub is_ok : {A : Type 0} → Store.Result A → Bool
is_ok (Store.ok a) = true
is_ok (Store.err e) = false
is_ok Store.panic = false

abbrev within_fuel : {A : Type 0} → Ruling (Option A) → Ruling A
within_fuel (ok (some a)) = ok a
within_fuel (ok none) = failed
within_fuel (broken e) = broken e
within_fuel failed = failed

-- The identity of the administrator.
abbrev decoded : (Bin → Option ℕ) → Store.Result Bin → Ruling ℕ
decoded read_id (Store.ok b) = elim (read_id b) [ none ↦ failed | some id ↦ ok id ]
decoded read_id (Store.err e) = failed
decoded read_id Store.panic = failed

module _ (ex : ChainExternals) (read_id : Bin → Option ℕ) (fuel : ℕ) where
  -- `DBState::new(&*db)`, whose reads are those of the database. The plot events take fuel.
  unfoldable pub view : Database → View
  unfolding get_validator_key get_raw Plots.get_plot_events get_txn get_block_header
  view db = record {
    validator_key = λ id. (get_validator_key ex id db).0;
    admin_id = decoded read_id (get_raw ex.base (network admin_key_id) db).0;
    is_known = λ id. is_ok (get_validator_key ex id db).0;
    plot_events =
        λ id tick. within_fuel (as_ruling (Plots.get_plot_events ex.base fuel id tick db).0);
    stored_txn = λ hash. as_ruling (get_txn ex hash db).0;
    header = λ hash. as_ruling (get_block_header ex hash db).0;
  }
