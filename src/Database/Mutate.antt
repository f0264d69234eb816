-- ===== src/Database/Mutate.antt =====
-- Mutations of the network state and their undoing (core/src/record_keeper/database.rs).
pub mod Laws
use blockscape.HashMap.{HashMap}
use blockscape.Mutation.{
  Change, admin, block_reward, plot_event, new_validator, slash, transfer, Mutation,
}
use blockscape.Database.Key.{Key, network, generic, validator_key, as_bin}
use blockscape.Database.Interface.{Externals}
use blockscape.Database.Store.{
  Database, Action, ok, err, panic, pure, ◌>>=◌, ◌>>◌, get_raw, put_raw, delete, found, assert,
}
use blockscape.Database.Stake.{change_validator_stake}
use blockscape.Database.Plots.{add_plot_events, remove_plot_events}
use blockscape.Base.{ℕ, Bool, true, false, not, Option, none, some, List, [], ◌∷◌, reverse, Bin}
use blockscape.Base.Int.{ℤ, pos}
use blockscape.Base.Words.{as_i64, add_i64, neg_i64}

-- `BLOCK_REWARD`
abbrev pub reward : ℕ
reward = 10

module _ (ex : Externals) where
  -- The last match of `_set_value`: it sets the value, or deletes the one that there was.
  abbrev set_or_delete : Key → Option Bin → Option Bin → Action (Unit {0})
  set_or_delete key (some v) prior = put_raw ex key v
  set_or_delete key none (some _) = delete ex key
  set_or_delete key none none = pure tt

  unfoldable pub set_value : Bin → Option Bin → Action (Option Bin)
  unfolding get_raw put_raw delete
  set_value key value = do
    prior ← found ex (get_raw ex (network (generic key)))
    set_or_delete (network (generic key)) value prior
    pure prior

  -- The loops over the recipients of a transfer; the result is `sum`.
  unfoldable pub pay : HashMap ℕ ℕ → ℤ → Action ℤ
  pay [] sum = pure sum
  pay ((recipient, amount) ∷ to) sum = do
    change_validator_stake ex recipient (as_i64 amount)
    pay to (add_i64 sum (as_i64 amount))

  unfoldable pub take_back : HashMap ℕ ℕ → ℤ → Action ℤ
  take_back [] sum = pure sum
  take_back ((recipient, amount) ∷ to) sum = do
    change_validator_stake ex recipient (neg_i64 (as_i64 amount))
    take_back to (add_i64 sum (as_i64 amount))

  -- One round of the loop of `_mutate`: it makes the change and returns the contra change.
  unfoldable pub mutate_change : Change → Action Change
  mutate_change (admin key value) = do prior ← set_value key value; pure (admin key prior)
  mutate_change (block_reward id proof) = do
    change_validator_stake ex id (as_i64 reward)
    pure (block_reward id [])
  mutate_change (plot_event e) = do add_plot_events ex e; pure (plot_event e)
  mutate_change (new_validator pub_key) = do
    put_raw ex (network (validator_key (ex.hash_pub_key pub_key))) pub_key
    pure (new_validator pub_key)
  mutate_change (slash id amount proof) = do
    change_validator_stake ex id (neg_i64 (as_i64 amount))
    pure (slash id amount [])
  mutate_change (transfer from to) = do
    sum ← pay to (pos 0)
    change_validator_stake ex from (neg_i64 sum)
    pure (transfer from to)

  abbrev pub mutate_changes : List Change → Action (List Change)
  mutate_changes [] = pure []
  mutate_changes (c ∷ cs) = do
    contra ← mutate_change c
    rest ← mutate_changes cs
    pure (contra ∷ rest)

  unfoldable pub mutate : Mutation → Action Mutation
  mutate m = do
    assert (not m.contra)
    changes ← mutate_changes m.changes
    pure (record { contra = true; changes = reverse changes })

  -- One round of the loop of `_undo_mutate`.
  unfoldable pub undo_change : Change → Action (Unit {0})
  undo_change (admin key value) = do set_value key value; pure tt
  undo_change (block_reward id proof) = change_validator_stake ex id (neg_i64 (as_i64 reward))
  undo_change (plot_event e) = remove_plot_events ex e
  undo_change (new_validator pub_key) = do
    set_value (as_bin ex.key_bytes (network (validator_key (ex.hash_pub_key pub_key)))) none
    pure tt
  undo_change (slash id amount proof) = change_validator_stake ex id (as_i64 amount)
  undo_change (transfer from to) = do sum ← take_back to (pos 0); change_validator_stake ex from sum

  abbrev pub undo_changes : List Change → Action (Unit {0})
  undo_changes [] = pure tt
  undo_changes (c ∷ cs) = undo_change c >> undo_changes cs

  unfoldable pub undo_mutate : Mutation → Action (Unit {0})
  undo_mutate m = do assert m.contra; undo_changes m.changes
