-- ===== src/Tests/Keepers.antt =====
-- Examples of the record keeper.
use blockscape.Mutation.{new_validator, calculate_size, change_size}
use blockscape.Network.Message.{Txn}
use blockscape.Database.Store.{get_raw}
use blockscape.RecordKeeper.{
  RecordKeeper, Checker, done, pending_size, max_pending_txn_mem, view, is_valid_txn_given_lock,
  is_valid_txn_given_state, is_valid_mutation_given_state,
}
use blockscape.Database.Chain
use blockscape.Database.Chain.{get_validator_key}
use blockscape.Rules.Duplicates
use blockscape.Rules.Checks.{
  valid_signature, valid_admin, valid_new_validator, valid_plot_events, plot_events_rule_iter,
}
use blockscape.RecordKeeper.Pending.{add_pending_txn, get_txn}
use blockscape.RecordKeeper.Laws.{add_pending_txn_bound, get_txn-add_pending_txn}
use blockscape.Base.{
  ℕ, ◌≤◌, ◌≡◌, ◌≢◌, refl, true, false, none, [], ◌∷◌, length, if◌then◌else◌, ◌==◌, nat_eq, arith,
}
use blockscape.Base.Int.{pos}
use blockscape.Tests.Chains.{sample_chain}

abbrev checker : Checker
checker = record {
  key_from_der = λ b. true;
  verify = λ t b. true;
  hash_pub_key = length;
  rules = [];
  merge_hashes = λ a b. a;
}

abbrev keeper : RecordKeeper
keeper = record {
  db = record { rows = λ k. none; head_block = 0; head_height = 0 };
  pending_txns = [];
  record_events = [];
  game_events = [];
}

-- A new validator announces itself.
abbrev announcement : Txn
announcement = record {
  timestamp = pos 3;
  creator = 4;
  mutation = record { contra = false; changes = new_validator (1 ∷ 2 ∷ []) ∷ [] };
  signature = 9 ∷ [];
}

accepts :
    (add_pending_txn sample_chain checker (λ b. none) 5 announcement true (pos 7) keeper).0
    ≡ done true
unfolding add_pending_txn Chain.get_txn get_raw view is_valid_txn_given_lock get_validator_key
    valid_signature valid_admin valid_new_validator Duplicates.is_valid_txn Duplicates.see_all
    is_valid_txn_given_state is_valid_mutation_given_state calculate_size change_size
    valid_plot_events plot_events_rule_iter
accepts = refl

add_pending_txn_bound_example :
    pending_size
      (add_pending_txn sample_chain checker
        (λ b. none)
        5
        announcement
        true
        (pos 7)
        keeper).1.pending_txns
    ≤ max_pending_txn_mem
add_pending_txn_bound_example =
    add_pending_txn_bound sample_chain checker (λ b. none) 5 announcement true (pos 7) keeper
      (omega arith)

get_txn-add_pending_txn_example :
    let after =
      add_pending_txn sample_chain checker (λ b. none) 5 announcement true (pos 7) keeper in
    (after.0 ≡ done true
      → (other : ℕ)
      → get_txn sample_chain other after.1
        ≡ (if 4 == other then done announcement else get_txn sample_chain other keeper))
    × (after.0 ≢ done true → after.1 ≡ keeper)
get_txn-add_pending_txn_example =
    get_txn-add_pending_txn sample_chain checker (λ b. none) 5 announcement true (pos 7) keeper
