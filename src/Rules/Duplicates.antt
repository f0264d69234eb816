-- ===== src/Rules/Duplicates.antt =====
-- No duplicate changes in a mutation (core/src/record_keeper/rules/mutation/duplicates.rs, and
-- txn/duplicates.rs there). The validators known and the events of plots are parameters.
pub mod Distinct
use blockscape.HashMap
use blockscape.HashMap.{HashMap}
use blockscape.Coord.{Coord, coord_eq}
use blockscape.Event.{RawEvent, RawEvents, at, add_event}
use blockscape.Mutation.{
  Change, admin, block_reward, plot_event, new_validator, slash, transfer, PlotEvent,
}
use blockscape.Network.Message.{Txn}
use blockscape.Rules.Ruling.{Ruling, ok, broken, failed, ◌>>=◌, unless, duplicate}
use blockscape.Base.{
  ℕ, Bool, true, false, not, ◌||◌, Option, none, some, List, [], ◌∷◌, Bin, map, contains, nat_eq,
  list_eq, ◌==◌, if◌then◌else◌,
}

unfoldable pub duplicated_within_txn : HashMap Coord RawEvents → Coord → ℕ → RawEvent → Bool
duplicated_within_txn events id tick event = elim (HashMap.get id events) [
  | none ↦ false
  | some plot_events ↦ contains (at tick plot_events) event
]

unfoldable pub append_to_plot :
    HashMap Coord RawEvents → Coord → ℕ → RawEvent → HashMap Coord RawEvents
unfolding add_event
append_to_plot events id tick event = elim (HashMap.get id events) [
  | some plot_events ↦ HashMap.insert id (add_event plot_events tick event).0 events
  | none ↦ HashMap.insert id (add_event [] tick event).0 events
]

-- What the first loop has seen: the validators and the events of plots.
pub record Seen : Type 0 where
  pub validators : List ℕ
  pub events : HashMap Coord RawEvents

abbrev pub seen_at : HashMap Coord RawEvents → List Coord → ℕ → RawEvent → Bool
seen_at events [] tick event = false
seen_at events (id ∷ ids) tick event =
    duplicated_within_txn events id tick event || seen_at events ids tick event

abbrev pub append_to : HashMap Coord RawEvents → List Coord → ℕ → RawEvent → HashMap Coord RawEvents
append_to events [] tick event = events
append_to events (id ∷ ids) tick event =
    append_to (append_to_plot events id tick event) ids tick event

module _ (is_known : ℕ → Bool) (plot_events : Coord → ℕ → Ruling RawEvents)
    (hash_pub_key : Bin → ℕ) where
  unfoldable pub duplicated_within_net : Coord → ℕ → RawEvent → Ruling Bool
  duplicated_within_net id tick event =
      plot_events id tick >>= λ events. ok (contains (at tick events) event)

  -- No plot of the list has the event.
  abbrev pub fresh_in : List Coord → ℕ → RawEvent → Ruling (Unit {0})
  fresh_in [] tick event = ok tt
  fresh_in (id ∷ ids) tick event = duplicated_within_net id tick event >>= λ found.
      unless (not found) duplicate >>= λ _. fresh_in ids tick event

  abbrev pub add_validator : ℕ → Seen → Ruling Seen
  add_validator hash s =
      if contains s.validators hash || is_known hash
      then broken duplicate
      else ok (record s { validators = hash ∷ s.validators })

  abbrev pub add_plot_event : PlotEvent → Seen → Ruling Seen
  add_plot_event e s =
      if seen_at s.events (e.from ∷ e.to) e.tick e.event
      then broken duplicate
      else (fresh_in (e.from ∷ e.to) e.tick e.event >>= λ _.
          ok (record s { events = append_to s.events (e.from ∷ e.to) e.tick e.event }))

  abbrev pub see : Change → Seen → Ruling Seen
  see (new_validator pub_key) s = add_validator (hash_pub_key pub_key) s
  see (plot_event e) s = add_plot_event e s
  see _ s = ok s

  -- The loop over the changes.
  unfoldable pub see_all : List (Change × ℕ) → Seen → Ruling Seen
  unfolding duplicated_within_net duplicated_within_txn append_to_plot
  see_all [] s = ok s
  see_all (c ∷ mutation) s = see c.0 s >>= see_all mutation

  -- `is_valid` of the rule on mutations.
  unfoldable pub is_valid : List (Change × ℕ) → Ruling (Unit {0})
  unfolding see_all
  is_valid mutation = see_all mutation (record { validators = []; events = [] }) >>= λ _. ok tt

  -- `is_valid` of the rule on transactions.
  unfoldable pub is_valid_txn : Txn → Ruling (Unit {0})
  unfolding is_valid
  is_valid_txn txn = is_valid (map (λ change. (change, txn.creator)) txn.mutation.changes)
