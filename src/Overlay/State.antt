-- ===== src/Overlay/State.antt =====
-- States over the database (core/src/record_keeper/db_state.rs): `DBState`, which reads the
-- database, which it never writes, through a difference. Walking to another block is left out.
use blockscape.Coord.{Coord}
use blockscape.BTreeMap
use blockscape.Event.{RawEvent, RawEvents, add_events, remove_events}
use blockscape.Database.Key.{Key, network, plot, cache, current_head, height_by_block}
use blockscape.Database.Store.{
  Database, Result, ok, err, panic, not_found, deserialize_failed, get_raw,
}
use blockscape.Database.Plots
use blockscape.Database.Chain.{ChainExternals}
use blockscape.Overlay
use blockscape.Overlay.{DbDiff}
use blockscape.Base.{
  ℕ, Bool, true, false, ◌&&◌, Option, none, some, [], ◌∷◌, Bin, if◌then◌else◌, nat_eq, ◌==◌,
}

-- `head` is the pair of the current block and its height.
pub record DbState : Type 0 where
  pub db : Database
  pub diff : DbDiff
  pub head_block : ℕ
  pub head_height : ℕ

abbrev pub Method : Type 0 → Type 0
Method A = DbState → Result A × DbState

-- `DBState::new`, with the default difference.
unfoldable pub new : Database → DbState
unfolding Overlay.new
new db = record {
  db = db;
  diff = Overlay.new none none;
  head_block = db.head_block;
  head_height = db.head_height;
}

unfoldable pub is_empty : Bool → DbState → Bool
unfolding Overlay.is_empty
is_empty db_is_empty s = db_is_empty && Overlay.is_empty s.diff

-- The keys that `_get` and `_put` leave unimplemented.
abbrev pub is_plot : Key → Bool
is_plot (network (plot id tick)) = true
is_plot _ = false

-- `map_not_found`
abbrev pub map_not_found : {A : Type 0} → Result A → A → Result A
map_not_found (ok v) val = ok v
map_not_found (err (not_found k)) val = ok val
map_not_found (err e) val = err e
map_not_found panic val = panic

abbrev pub or_default : Option RawEvents → RawEvents
or_default none = []
or_default (some m) = m

-- The loops of `get_plot_events` over the lists of a map, from a tick on.
unfoldable pub remove_all : RawEvents → RawEvents → RawEvents
unfolding remove_events
remove_all events [] = events
remove_all events (entry ∷ m) = remove_all (remove_events events entry.0 entry.1) m

unfoldable pub add_all : RawEvents → RawEvents → RawEvents
unfolding add_events
add_all events [] = events
add_all events (entry ∷ m) = add_all (add_events events entry.0 entry.1) m

-- The rest of `get_plot_events` when the database has been asked.
unfoldable pub overlay_events : DbDiff → Coord → ℕ → RawEvents → RawEvents
unfolding remove_all add_all Overlay.get_new_events Overlay.get_removed_events
overlay_events d id from_tick events =
    add_all
      (remove_all events
        (BTreeMap.split_off from_tick (or_default (Overlay.get_removed_events d id))))
      (BTreeMap.split_off from_tick (or_default (Overlay.get_new_events d id)))

-- A run that has used up its fuel gives nothing.
abbrev pub with_events :
    (RawEvents → RawEvents) → Result (Option RawEvents) → Result (Option RawEvents)
with_events f (ok none) = ok none
with_events f (ok (some events)) = ok (some (f events))
with_events f (err e) = err e
with_events f panic = panic

module _ (ex : ChainExternals) where
  -- `_get`
  unfoldable pub get : Key → DbState → Result Bin
  unfolding get_raw Overlay.get_value Overlay.is_value_deleted
  get key s = if is_plot key then panic else elim (Overlay.get_value s.diff key) [
    | some v ↦ ok v
    | none ↦
        if Overlay.is_value_deleted s.diff key
        then err (not_found key)
        else (get_raw ex.base key s.db).0
  ]

  -- `_put`
  unfoldable pub put : Key → Bin → Method (Unit {0})
  unfolding Overlay.set_value
  put key value s =
      if is_plot key
      then (panic, s)
      else (ok tt, record s { diff = Overlay.set_value ex.base.key_bytes s.diff key value })

  -- `_delete`
  unfoldable pub delete : Key → Method (Unit {0})
  unfolding Overlay.delete_value
  delete key s = (ok tt, record s { diff = Overlay.delete_value ex.base.key_bytes s.diff key })

  unfoldable pub get_plot_events : ℕ → Coord → ℕ → DbState → Result (Option RawEvents)
  unfolding overlay_events Plots.get_plot_events
  get_plot_events fuel id from_tick s =
      with_events (overlay_events s.diff id from_tick)
        (map_not_found (Plots.get_plot_events ex.base fuel id from_tick s.db).0 (some []))

  -- `_add_event`
  unfoldable pub add_event : Coord → ℕ → RawEvent → Method (Unit {0})
  unfolding Overlay.add_event
  add_event id tick event s = (ok tt, record s { diff = Overlay.add_event s.diff id tick event })

  -- `_remove_event`
  unfoldable pub remove_event : Coord → ℕ → RawEvent → Method (Unit {0})
  unfolding Overlay.remove_event
  remove_event id tick event s =
      (ok tt, record s { diff = Overlay.remove_event s.diff id tick event })

  -- `get_obj` at the heights, of which that of the current block is at hand.
  unfoldable pub get_block_height : ℕ → DbState → Result ℕ
  unfolding get
  get_block_height hash s =
      if hash == s.head_block
      then ok s.head_height
      else elim (get (cache (height_by_block hash)) s) [
        | ok raw ↦ elim (ex.base.u64.deserialize raw) [
          | none ↦ err deserialize_failed
          | some h ↦ ok h
        ]
        | err e ↦ err e
        | panic ↦ panic
      ]

  abbrev pub height_or : Option ℕ → Result ℕ → Result ℕ
  height_or none r = r
  height_or (some h) r = ok h

  -- `_update_current_block`
  unfoldable pub update_current_block : ℕ → Option ℕ → Method (Unit {0})
  unfolding put get_block_height
  update_current_block hash height s = elim (height_or height (get_block_height hash s)) [
    | ok h ↦
        put (cache current_head) (ex.head.serialize (hash, h))
          (record s { head_block = hash; head_height = h })
    | err e ↦ (err e, s)
    | panic ↦ (panic, s)
  ]
