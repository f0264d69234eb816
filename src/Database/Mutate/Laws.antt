-- ===== src/Database/Mutate/Laws.antt =====
-- What undoing a mutation restores.
use blockscape.Mutation.{Change, admin, new_validator, Mutation}
use blockscape.Database.Key.{network, validator_key, as_bin}
use blockscape.Database.Interface.{Externals}
use blockscape.Database.Store.{
  Database, ok, pure, ◌>>=◌, get_raw, put_raw, delete, assert, update, bind-ok,
}
use blockscape.Database.Mutate.{
  set_value, mutate_change, mutate_changes, mutate, undo_change, undo_changes, undo_mutate,
}
use blockscape.Base.{
  ◌≡◌, refl, ◌∙◌, true, false, not, Option, none, some, List, [], ◌∷◌, reverse, Bin, nat_eq,
  list_eq, list_beq_iff, Option-cases, beq_refl, arith,
}
use mathlib.Core.Path.{fun_ext}
use mathlib.Core.List.{reverse_aux}

update_self :
    (rows : Bin → Option Bin) (k : Bin) (v : Option Bin) → rows k ≡ v → update rows k v ≡ rows
update_self rows k v h = fun_ext λ j. ground (arith, list_beq_iff k j)

update_back :
    (rows : Bin → Option Bin) (k : Bin) (v : Option Bin)
    → update (update rows k v) k (rows k) ≡ rows
update_back rows k v = fun_ext λ j. ground (arith, list_beq_iff k j)

-- The key of a value of the network state, as bytes.
abbrev pub row : Bin → Bin
row key = b'n' ∷ key

-- The database after a value has been set.
abbrev pub with_value : Database → Bin → Option Bin → Database
with_value db key v = record db { rows = update db.rows (row key) v }

-- Changes which all are administrative.
pub data AllAdmin : List Change → Type 0 where
  none_left : AllAdmin []
  one_more :
      {key : Bin} {value : Option Bin} {cs : List Change}
      → AllAdmin cs
      → AllAdmin (admin key value ∷ cs)

-- The contra changes in the order in which they are made, and the database after the changes.
abbrev contra_of : {cs : List Change} → AllAdmin cs → Database → List Change
contra_of none_left db = []
contra_of (one_more {key} {value} all) db =
    admin key (db.rows (row key)) ∷ contra_of all (with_value db key value)

abbrev after_all : {cs : List Change} → AllAdmin cs → Database → Database
after_all none_left db = db
after_all (one_more {key} {value} all) db = after_all all (with_value db key value)

module _ (ex : Externals) where
  -- Setting a value returns the value that was there, and afterwards the key has the new value
  -- and every other key what it had; without a value the key is deleted.
  pub set_value_lem :
      (db : Database) (key : Bin) (value : Option Bin)
      → set_value ex key value db ≡ (ok (db.rows (row key)), with_value db key value)
  unfolding set_value get_raw put_raw delete
  set_value_lem db key (some v) = ground (arith, Option-cases (db.rows (row key)))
  set_value_lem db key none =
      ground (arith, Option-cases (db.rows (row key)), update_self db.rows (row key) none)

  mutate_admin :
      (db : Database) (key : Bin) (value : Option Bin)
      → mutate_change ex (admin key value) db
        ≡ (ok (admin key (db.rows (row key))), with_value db key value)
  unfolding mutate_change
  mutate_admin db key value =
      bind-ok (set_value ex key value) (λ prior. pure (admin key prior)) db
        (with_value db key value) (db.rows (row key)) (set_value_lem db key value)

  undo_admin :
      (db : Database) (key : Bin) (value : Option Bin)
      → undo_change ex (admin key (db.rows (row key))) (with_value db key value) ≡ (ok tt, db)
  unfolding undo_change
  undo_admin db key value =
      bind-ok (set_value ex key (db.rows (row key))) (λ _. pure tt) (with_value db key value)
        (with_value (with_value db key value) key (db.rows (row key)))
        ((with_value db key value).rows (row key))
        (set_value_lem (with_value db key value) key (db.rows (row key)))
      ∙ rw (update_back db.rows (row key) value) refl

  mutate_changes-eq :
      {cs : List Change} (all : AllAdmin cs) (db : Database)
      → mutate_changes ex cs db ≡ (ok (contra_of all db), after_all all db)
  mutate_changes-eq none_left db = refl
  mutate_changes-eq {cs = c ∷ cs} (one_more {key} {value} all) db =
      bind-ok (mutate_change ex (admin key value))
        (λ contra. mutate_changes ex cs >>= λ rest. pure (contra ∷ rest)) db
        (with_value db key value) (admin key (db.rows (row key))) (mutate_admin db key value)
      ∙ bind-ok (mutate_changes ex cs) (λ rest. pure (admin key (db.rows (row key)) ∷ rest))
          (with_value db key value) _ _ (mutate_changes-eq all (with_value db key value))

  undo_back :
      {cs : List Change} (all : AllAdmin cs) (db : Database) (ys : List Change)
      → undo_changes ex (reverse_aux (contra_of all db) ys) (after_all all db)
        ≡ undo_changes ex ys db
  undo_back none_left db ys = refl
  undo_back (one_more {key} {value} all) db ys =
      undo_back all (with_value db key value) (admin key (db.rows (row key)) ∷ ys)
      ∙ bind-ok (undo_change ex (admin key (db.rows (row key)))) (λ _. undo_changes ex ys)
          (with_value db key value) db tt (undo_admin db key value)

  mutate-eq :
      (db : Database) (m : Mutation)
      → m.contra ≡ false
      → (all : AllAdmin m.changes)
      → mutate ex m db
        ≡ (ok (record { contra = true; changes = reverse (contra_of all db) }), after_all all db)
  unfolding mutate
  mutate-eq db m h all =
      bind-ok (assert (not m.contra))
        (λ _. mutate_changes ex m.changes >>= λ changes.
          pure (record { contra = true; changes = reverse changes }))
        db db tt (rw h refl)
      ∙ bind-ok (mutate_changes ex m.changes)
          (λ changes. pure (record { contra = true; changes = reverse changes })) db
          (after_all all db) (contra_of all db) (mutate_changes-eq all db)

  -- A mutation whose changes all set or delete values of the network state: to make it and then
  -- to undo it with the contra mutation that it returns succeeds and leaves the database exactly
  -- as it was, also where changes set the same key more than once.
  pub mutate-undo_mutate :
      (db : Database) (m : Mutation)
      → m.contra ≡ false
      → AllAdmin m.changes
      → (mutate ex m >>= undo_mutate ex) db ≡ (ok tt, db)
  unfolding undo_mutate
  mutate-undo_mutate db m h all =
      bind-ok (mutate ex m) (undo_mutate ex) db (after_all all db)
        (record { contra = true; changes = reverse (contra_of all db) }) (mutate-eq db m h all)
      ∙ undo_back all db []

  -- The undoing of a new validator does not remove the public key that the change has stored: it
  -- succeeds, and the key is still there. It deletes a value under another key, which has the byte
  -- n twice in front.
  pub undo_change-new_validator :
      (db : Database) (pub_key : Bin)
      → let key = as_bin ex.key_bytes (network (validator_key (ex.hash_pub_key pub_key))) in
        let after = (mutate_change ex (new_validator pub_key) >>= undo_change ex) db in
        (after.0 ≡ ok tt) × (after.1.rows key ≡ some pub_key) × (after.1.rows (row key) ≡ none)
  unfolding mutate_change undo_change put_raw
  undo_change-new_validator db pub_key =
      let key = as_bin ex.key_bytes (network (validator_key (ex.hash_pub_key pub_key))) in
      let stored = record db { rows = update db.rows key (some pub_key) } in
      rw
        (bind-ok (set_value ex key none) (λ _. pure tt) stored (with_value stored key none)
          (stored.rows (row key)) (set_value_lem stored key none))
        (
          refl,
          ground (arith, list_beq_iff (row key) key, list_beq_iff key key),
          rw (beq_refl (row key)) refl,
        )
