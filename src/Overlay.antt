-- ===== src/Overlay.antt =====
-- Differences from the database (core/src/record_keeper/db_state.rs): `DBDiff`. A `HashSet` of keys
-- is a hash map to the unit.
pub mod Filter
pub mod State
pub mod Compile
pub mod Values
pub mod Events
pub mod Batch
use blockscape.Coord.{Coord, coord_eq}
use blockscape.BoundingBox
use blockscape.BoundingBox.{BoundingBox}
use blockscape.HashMap
use blockscape.HashMap.{HashMap}
use blockscape.Event
use blockscape.Event.{RawEvent, RawEvents, at}
use blockscape.Database.Key.{KeyBytes, Key, as_bin}
use blockscape.Database.Key.Same.{key_eq}
use blockscape.Overlay.Filter.{sort, binary_search}
use blockscape.Base.{
  ℕ, Bool, true, false, not, ◌&&◌, Option, none, some, List, [], ◌∷◌, Bin, nat_eq, list_eq, ◌==◌,
  contains, if◌then◌else◌,
}

pub record DbDiff : Type 0 where
  pub filters : Option (List Bin)
  pub bounds : Option BoundingBox
  pub new_values : HashMap Key Bin
  pub del_values : HashMap Key (Unit {0})
  pub new_events : HashMap Coord RawEvents
  pub del_events : HashMap Coord RawEvents

abbrev pub sort_filters : Option (List Bin) → Option (List Bin)
sort_filters none = none
sort_filters (some f) = some (sort f)

unfoldable pub new : Option (List Bin) → Option BoundingBox → DbDiff
new filters bounds = record {
  filters = sort_filters filters;
  bounds = bounds;
  new_values = [];
  del_values = [];
  new_events = [];
  del_events = [];
}

abbrev no_entries : {K V : Type 0} → HashMap K V → Bool
no_entries [] = true
no_entries (e ∷ m) = false

unfoldable pub is_empty : DbDiff → Bool
is_empty d = no_entries d.new_values && no_entries d.new_events

unfoldable pub relevant_key : KeyBytes → DbDiff → Key → Bool
relevant_key kb d key = elim d.filters [ none ↦ true | some f ↦ binary_search (as_bin kb key) f ]

unfoldable pub relevant_plot : DbDiff → Coord → Bool
unfolding BoundingBox.contains
relevant_plot d plot = elim d.bounds [ none ↦ true | some b ↦ BoundingBox.contains b plot ]

-- The events of a plot in a map, and those at a tick of it, when nothing there is empty.
abbrev pub of_plot : HashMap Coord RawEvents → Coord → RawEvents
of_plot plots id = elim (HashMap.get id plots) [ none ↦ [] | some plot ↦ plot ]

-- `remove`: the map, and whether the event was there.
unfoldable pub remove :
    HashMap Coord RawEvents → Coord → ℕ → RawEvent → HashMap Coord RawEvents × Bool
remove plots id tick event = elim (HashMap.get id plots) [
  | none ↦ (plots, false)
  | some plot ↦
      let (plot', removed) = Event.remove_event plot tick event in
      (HashMap.insert id plot' plots, removed)
]

unfoldable pub add : HashMap Coord RawEvents → Coord → ℕ → RawEvent → HashMap Coord RawEvents
add plots id tick event = elim (HashMap.get id plots) [
  | some plot ↦ HashMap.insert id (Event.add_event plot tick event).0 plots
  | none ↦ HashMap.insert id (Event.add_event [] tick event).0 plots
]

unfoldable pub add_event : DbDiff → Coord → ℕ → RawEvent → DbDiff
unfolding relevant_plot remove add
add_event d id tick event =
    let (del_events', removed) = remove d.del_events id tick event in
    if not (relevant_plot d id)
    then d
    else if removed
    then record d { del_events = del_events' }
    else record d { del_events = del_events'; new_events = add d.new_events id tick event }

unfoldable pub remove_event : DbDiff → Coord → ℕ → RawEvent → DbDiff
unfolding relevant_plot remove add
remove_event d id tick event =
    let (new_events', removed) = remove d.new_events id tick event in
    if not (relevant_plot d id)
    then d
    else if removed
    then record d { new_events = new_events' }
    else record d { new_events = new_events'; del_events = add d.del_events id tick event }

unfoldable pub get_new_events : DbDiff → Coord → Option RawEvents
get_new_events d plot = HashMap.get plot d.new_events

unfoldable pub get_removed_events : DbDiff → Coord → Option RawEvents
get_removed_events d plot = HashMap.get plot d.del_events

unfoldable pub get_value : DbDiff → Key → Option Bin
get_value d key = HashMap.get key d.new_values

unfoldable pub is_value_deleted : DbDiff → Key → Bool
is_value_deleted d key = HashMap.contains_key key d.del_values

unfoldable pub is_event_removed : DbDiff → Coord → ℕ → RawEvent → Bool
is_event_removed d plot tick event = elim (HashMap.get plot d.del_events) [
  | none ↦ false
  | some events ↦ contains (at tick events) event
]

module _ (kb : KeyBytes) where
  unfoldable pub set_value : DbDiff → Key → Bin → DbDiff
  unfolding relevant_key
  set_value d key value =
      if not (relevant_key kb d key)
      then d
      else if HashMap.contains_key key d.del_values
      then record d { del_values = HashMap.remove key d.del_values }
      else record d { new_values = HashMap.insert key value d.new_values }

  unfoldable pub delete_value : DbDiff → Key → DbDiff
  unfolding relevant_key
  delete_value d key =
      if not (relevant_key kb d key)
      then d
      else if HashMap.contains_key key d.new_values
      then record d { new_values = HashMap.remove key d.new_values }
      else record d { del_values = HashMap.insert key tt d.del_values }
