-- ===== src/Rules/Checks.antt =====
-- Rules on mutations, transactions and blocks (core/src/record_keeper/rules): PlotEvent, AdminCheck,
-- NewValidator, Signature and TimeStamp. What they read from the database is a parameter.
use blockscape.Mutation.{Change, admin, plot_event, new_validator, PlotEvent}
use blockscape.Coord.{coord_eq}
use blockscape.Network.Message.{Txn, Block, BlockHeader}
use blockscape.Database.Store
use blockscape.Rules.Ruling.{
  Ruling, ok, broken, failed, ◌>>=◌, unless, invalid_mutation, expected_admin, invalid_signature,
  invalid_time, unrecognized_creator,
}
use blockscape.Base.{
  ℕ, Bool, true, false, List, [], ◌∷◌, Bin, contains, nat_eq, ◌==◌, if◌then◌else◌,
}
use blockscape.Base.Int.{ℤ, ltb_ℤ}

-- `plot_events_rule_iter`
unfoldable pub plot_events_rule_iter :
    (PlotEvent → ℕ → Ruling (Unit {0})) → List (Change × ℕ) → Ruling (Unit {0})
plot_events_rule_iter func [] = ok tt
plot_events_rule_iter func ((plot_event pe, user) ∷ mutation) =
    func pe user >>= λ _. plot_events_rule_iter func mutation
plot_events_rule_iter func (_ ∷ mutation) = plot_events_rule_iter func mutation

unfoldable pub validate_plot_event : PlotEvent → ℕ → Ruling (Unit {0})
validate_plot_event e user = if contains e.to e.from then broken invalid_mutation else ok tt

-- `is_valid` of the rule PlotEvent.
unfoldable pub valid_plot_events : List (Change × ℕ) → Ruling (Unit {0})
unfolding plot_events_rule_iter validate_plot_event
valid_plot_events mutation = plot_events_rule_iter validate_plot_event mutation

abbrev pub contains_admin : List Change → Bool
contains_admin [] = false
contains_admin (admin k v ∷ changes) = true
contains_admin (_ ∷ changes) = contains_admin changes

-- `is_valid` of the rule AdminCheck.
unfoldable pub valid_admin : Ruling ℕ → Txn → Ruling (Unit {0})
valid_admin admin_key_id txn =
    if contains_admin txn.mutation.changes
    then (admin_key_id >>= λ id. unless (txn.creator == id) expected_admin)
    else ok tt

-- `is_valid` of the rule NewValidator.
unfoldable pub valid_new_validator : Txn → Ruling (Unit {0})
valid_new_validator txn = ok tt

-- The key of a creator who is not known: a new validator may sign for itself.
abbrev pub own_key : List Change → Ruling Bin
own_key (new_validator pub_key ∷ []) = ok pub_key
own_key _ = broken unrecognized_creator

abbrev pub creator_key : List Change → Store.Result Bin → Ruling Bin
creator_key changes (Store.ok k) = ok k
creator_key changes (Store.err (Store.not_found key)) = own_key changes
creator_key changes (Store.err e) = failed
creator_key changes Store.panic = failed

-- `is_valid` of the rule Signature. `key_from_der` says whether bytes are a public key, and `verify`
-- whether the signature of the transaction is one by it.
unfoldable pub valid_signature :
    (ℕ → Store.Result Bin) → (Bin → Bool) → (Txn → Bin → Bool) → Txn → Ruling (Unit {0})
valid_signature get_validator_key key_from_der verify txn = do
  der ← creator_key txn.mutation.changes (get_validator_key txn.creator)
  _ ← if key_from_der der then ok tt else failed
  unless (verify txn der) invalid_signature

-- `is_valid` of the rule TimeStamp; the block before is read only if the first test passes.
unfoldable pub valid_time : (ℕ → Ruling BlockHeader) → ℤ → Block → Ruling (Unit {0})
valid_time get_block_header now block =
    if ltb_ℤ now block.header.timestamp
    then broken invalid_time
    else (get_block_header block.header.prev >>= λ prev.
        if ltb_ℤ block.header.timestamp prev.timestamp then broken invalid_time else ok tt)
