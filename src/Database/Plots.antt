-- ===== src/Database/Plots.antt =====
-- The events of plots, in buckets of 1000 ticks (core/src/record_keeper/database.rs). A warning
-- that an event does not exist is not modelled: it changes nothing.
pub mod Laws
pub mod Fill
pub mod Bucket
pub mod Add
use blockscape.Coord.{Coord}
use blockscape.BTreeMap
use blockscape.BTreeMap.{BTreeMap}
use blockscape.Event.{RawEvent, RawEvents, add_event, remove_event}
use blockscape.Mutation.{PlotEvent}
use blockscape.Database.Key.{network, plot, bucket_size}
use blockscape.Database.Interface.{Externals}
use blockscape.Database.Store.{
  Database, Action, ok, err, panic, pure, ◌>>=◌, ◌>>◌, get_raw, put_raw, found, decode, assert,
}
use blockscape.Base.{
  ℕ, zero, suc, ◌+◌, ◌-◌, ◌/◌, ◌*◌, Bool, true, false, Option, none, some, List, [], ◌∷◌, Bin, ltb,
  ◌==◌, nat_eq, ◌&&◌, if◌then◌else◌,
}

-- Whether every tick of the map is in the bucket.
abbrev pub all_in : ℕ → RawEvents → Bool
all_in bucket [] = true
all_in bucket (entry ∷ events) = (entry.0 / bucket_size) == bucket && all_in bucket events

module _ (ex : Externals) where
  abbrev pub decode_bucket : Option Bin → Action (Option RawEvents)
  decode_bucket none = pure none
  decode_bucket (some l) = do events ← decode ex.events l; pure (some events)

  unfoldable pub get_plot_event_bucket : Coord → ℕ → Action (Option RawEvents)
  get_plot_event_bucket plot_id tick = do
    l ← found ex (get_raw ex (network (plot plot_id tick)))
    decode_bucket l

  unfoldable pub put_plot_event_bucket : Coord → ℕ → RawEvents → Action (Unit {0})
  put_plot_event_bucket plot_id tick event_list = do
    assert (all_in (tick / bucket_size) event_list)
    put_raw ex (network (plot plot_id tick)) (ex.events.serialize event_list)

  -- One round of the loop of `_init_event_buckets`: it ends at a bucket that is there.
  abbrev pub init_round : Coord → ℕ → Action (Unit {0}) → Option RawEvents → Action (Unit {0})
  init_round plot_id tick rest (some _) = pure tt
  init_round plot_id tick rest none = put_plot_event_bucket plot_id tick [] >> rest

  -- The loop at a tick of the bucket `n`: it goes down one bucket at a time, to the bucket 0.
  abbrev pub init_down : Coord → ℕ → ℕ → Action (Unit {0})
  init_down plot_id zero tick =
      get_plot_event_bucket plot_id tick >>= init_round plot_id tick (pure tt)
  init_down plot_id (suc n) tick =
      get_plot_event_bucket plot_id tick
      >>= init_round plot_id tick (init_down plot_id n (tick - bucket_size))

  unfoldable pub init_event_buckets : Coord → ℕ → Action (Unit {0})
  init_event_buckets plot_id before_tick =
      if ltb before_tick bucket_size
      then pure tt
      else init_down plot_id ((before_tick - bucket_size) / bucket_size) (before_tick - bucket_size)

  -- The rest of `_add_event` when the bucket has been read.
  abbrev pub add_to_bucket : Coord → ℕ → RawEvent → Option RawEvents → Action (Unit {0})
  add_to_bucket plot_id tick event none =
      init_event_buckets plot_id tick
      >> put_plot_event_bucket plot_id tick (add_event [] tick event).0
  add_to_bucket plot_id tick event (some event_list) =
      put_plot_event_bucket plot_id tick (add_event event_list tick event).0

  -- `_add_event`
  unfoldable pub add_plot_event : Coord → ℕ → RawEvent → Action (Unit {0})
  add_plot_event plot_id tick event =
      get_plot_event_bucket plot_id tick >>= add_to_bucket plot_id tick event

  unfoldable pub add_to_all : List Coord → ℕ → RawEvent → Action (Unit {0})
  add_to_all [] tick event = pure tt
  add_to_all (plot_id ∷ plots) tick event = do
    add_plot_event plot_id tick event
    add_to_all plots tick event

  -- `_add_events`
  unfoldable pub add_plot_events : PlotEvent → Action (Unit {0})
  add_plot_events e = do add_plot_event e.from e.tick e.event; add_to_all e.to e.tick e.event

  -- The rest of `_remove_event` when the bucket has been read.
  abbrev pub remove_from_bucket : Coord → ℕ → RawEvent → Option RawEvents → Action (Unit {0})
  remove_from_bucket plot_id tick event none = pure tt
  remove_from_bucket plot_id tick event (some event_list) =
      if (remove_event event_list tick event).1
      then put_plot_event_bucket plot_id tick (remove_event event_list tick event).0
      else pure tt

  -- `_remove_event`
  unfoldable pub remove_plot_event : Coord → ℕ → RawEvent → Action (Unit {0})
  remove_plot_event plot_id tick event =
      get_plot_event_bucket plot_id tick >>= remove_from_bucket plot_id tick event

  unfoldable pub remove_from_all : List Coord → ℕ → RawEvent → Action (Unit {0})
  remove_from_all [] tick event = pure tt
  remove_from_all (plot_id ∷ plots) tick event = do
    remove_plot_event plot_id tick event
    remove_from_all plots tick event

  -- `_remove_events`
  unfoldable pub remove_plot_events : PlotEvent → Action (Unit {0})
  remove_plot_events e = do
    remove_plot_event e.from e.tick e.event
    remove_from_all e.to e.tick e.event

  -- The loop of `get_plot_events`; `none` is a run that has used up its fuel.
  unfoldable pub collect : ℕ → Coord → ℕ → RawEvents → Action (Option RawEvents)
  collect zero plot_id tick event_list = pure none
  collect (suc fuel) plot_id tick event_list = do
    raw_events ← get_plot_event_bucket plot_id tick
    elim raw_events [
      | none ↦ pure (some event_list)
      | some more ↦ collect fuel plot_id (tick + bucket_size) (BTreeMap.append event_list more)
    ]

  unfoldable pub get_plot_events : ℕ → Coord → ℕ → Action (Option RawEvents)
  get_plot_events fuel plot_id from_tick = do
    event_list ← collect fuel plot_id from_tick []
    elim event_list [ none ↦ pure none | some l ↦ pure (some (BTreeMap.split_off from_tick l)) ]
