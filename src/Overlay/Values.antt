-- ===== src/Overlay/Values.antt =====
-- The values that a state reads: each key is either as the database has it, or changed, or deleted.
use blockscape.BoundingBox.{BoundingBox}
use blockscape.HashMap
use blockscape.HashMap.{get-insert, get-remove, IsUnique, insert-IsUnique, remove-IsUnique}
use blockscape.Database.Key.{KeyBytes, Key, as_bin}
use blockscape.Database.Key.Same.{key_eq}
use blockscape.Database.Store.{ok, err, not_found, Result, get_raw}
use blockscape.Database.Chain.{ChainExternals}
use blockscape.Overlay
use blockscape.Overlay.{DbDiff, new, relevant_key, set_value, delete_value}
use blockscape.Overlay.Filter.{search-sort}
use blockscape.Overlay.State
use blockscape.Overlay.State.{DbState, put, delete, is_plot}
use blockscape.Base.{
  ◌≡◌, false, ◌&&◌, Option, some, List, Bin, ◌==◌, list_eq, nat_eq, contains, if◌then◌else◌, arith,
}

-- No key is both changed and deleted, and no key is changed twice.
pub record IsDisjoint (d : DbDiff) : Type 0 where
  pub unique : IsUnique d.new_values
  pub apart :
      (k : Key)
      → (HashMap.contains_key k d.new_values && HashMap.contains_key k d.del_values) ≡ false

module _ (kb : KeyBytes) where
  set_value-IsUnique :
      (d : DbDiff) (k : Key) (v : Bin)
      → IsUnique d.new_values
      → IsUnique ((set_value kb d k v).new_values)
  unfolding set_value
  set_value-IsUnique d k v u = ground (arith, insert-IsUnique k v d.new_values u)

  delete_value-IsUnique :
      (d : DbDiff) (k : Key) → IsUnique d.new_values → IsUnique ((delete_value kb d k).new_values)
  unfolding delete_value
  delete_value-IsUnique d k u = ground (arith, remove-IsUnique k d.new_values u)

  pub set_value-IsDisjoint :
      (d : DbDiff) (k : Key) (v : Bin) → IsDisjoint d → IsDisjoint (set_value kb d k v)
  unfolding set_value
  set_value-IsDisjoint d k v a = record {
    unique = set_value-IsUnique d k v a.unique;
    apart = λ j. ground (
      arith,
      a.apart j,
      get-insert k j v d.new_values,
      get-remove k j d.del_values,
      key_eq.beq_iff k j,
    );
  }

  pub delete_value-IsDisjoint :
      (d : DbDiff) (k : Key) → IsDisjoint d → IsDisjoint (delete_value kb d k)
  unfolding delete_value
  delete_value-IsDisjoint d k a = record {
    unique = delete_value-IsUnique d k a.unique;
    apart = λ j. ground (
      arith,
      a.apart j,
      get-insert k j tt d.del_values,
      get-remove k j d.new_values,
      key_eq.beq_iff k j,
    );
  }

  -- A difference made with filters takes the changes of exactly the keys whose bytes are among
  -- the filters.
  pub relevant_key-new :
      (f : List Bin) (b : Option BoundingBox) (k : Key)
      → relevant_key kb (new (some f) b) k ≡ contains f (as_bin kb k)
  unfolding relevant_key new
  relevant_key-new f b k = search-sort (as_bin kb k) f

module _ (ex : ChainExternals) where
  -- What `_get` finds in the database itself.
  abbrev pub db_value : DbState → Key → Result Bin
  db_value s key = (get_raw ex.base key s.db).0

  -- After `_put` of a value at a key that is no plot, reading another key gives what it gave. The
  -- key itself, unless the filters leave it out, gives the value put, but not if it was marked as
  -- deleted: then it gives what the database has there.
  pub get-put :
      (s : DbState) (k j : Key) (v : Bin)
      → IsDisjoint s.diff
      → is_plot k ≡ false
      → State.get ex j (put ex k v s).1 ≡ (
          if k == j && relevant_key ex.base.key_bytes s.diff k
          then (if Overlay.is_value_deleted s.diff k then db_value s k else ok v)
          else State.get ex j s)
  unfolding put State.get get_raw set_value Overlay.is_value_deleted Overlay.get_value
  get-put s k j v a h = ground (
    arith,
    a.apart k,
    a.apart j,
    get-insert k j v s.diff.new_values,
    get-remove k j s.diff.del_values,
    key_eq.beq_iff k j,
  )

  -- After `_delete` of a key that is no plot, reading another key gives what it gave. The key
  -- itself, unless the filters leave it out, is not found, but not if it had a new value: then it
  -- gives what the database has there.
  pub get-delete :
      (s : DbState) (k j : Key)
      → IsDisjoint s.diff
      → is_plot k ≡ false
      → State.get ex j (delete ex k s).1 ≡ (
          if k == j && relevant_key ex.base.key_bytes s.diff k
          then (if HashMap.contains_key k s.diff.new_values
              then db_value s k
              else err (not_found k))
          else State.get ex j s)
  unfolding delete State.get get_raw delete_value Overlay.is_value_deleted Overlay.get_value
  get-delete s k j a h = ground (
    arith,
    a.apart k,
    a.apart j,
    get-insert k j tt s.diff.del_values,
    get-remove k j s.diff.new_values,
    key_eq.beq_iff k j,
  )
