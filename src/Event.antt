-- ===== src/Event.antt =====
-- Lists of raw events by tick (core/src/primitives/event.rs): `RawEvents` and the functions that
-- add and remove events. A function that changes the map and returns a flag returns the pair.
pub mod Laws
use blockscape.BTreeMap
use blockscape.BTreeMap.{BTreeMap}
use blockscape.Base.{
  ℕ, Bool, true, false, Option, none, some, List, [], ◌∷◌, ◌++◌, Bin, ltb, ◌==◌, nat_eq, list_eq,
  contains, retain_ne, length, if◌then◌else◌,
}

abbrev pub RawEvent : Type 0
RawEvent = Bin

abbrev pub RawEvents : Type 0
RawEvents = BTreeMap (List RawEvent)

-- The events of a tick.
abbrev pub at : ℕ → RawEvents → List RawEvent
at tick events = elim (BTreeMap.get tick events) [ none ↦ [] | some l ↦ l ]

unfoldable pub add_event : RawEvents → ℕ → RawEvent → RawEvents × Bool
add_event events tick event = elim (BTreeMap.get tick events) [
  | none ↦ (BTreeMap.insert tick (event ∷ []) events, true)
  | some event_list ↦
      if contains event_list event
      then (events, false)
      else (BTreeMap.insert tick (event_list ++ event ∷ []) events, true)
]

unfoldable pub add_events : RawEvents → ℕ → List RawEvent → RawEvents
unfolding add_event
add_events events tick [] = events
add_events events tick (event ∷ event_list) =
    add_events (add_event events tick event).0 tick event_list

-- `if del_tick { events.remove(&tick) }` on what `retain` has left.
abbrev put_back : RawEvents → ℕ → List RawEvent → RawEvents
put_back events tick [] = BTreeMap.remove tick events
put_back events tick (e ∷ l) = BTreeMap.insert tick (e ∷ l) events

unfoldable pub remove_event : RawEvents → ℕ → RawEvent → RawEvents × Bool
remove_event events tick event = elim (BTreeMap.get tick events) [
  | none ↦ (events, false)
  | some event_list ↦ (
    put_back events tick (retain_ne event event_list),
    ltb (length (retain_ne event event_list)) (length event_list),
  )
]

unfoldable pub remove_events : RawEvents → ℕ → List RawEvent → RawEvents
unfolding remove_event
remove_events events tick [] = events
remove_events events tick (event ∷ event_list) =
    remove_events (remove_event events tick event).0 tick event_list
