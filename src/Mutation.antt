-- ===== src/Mutation.antt =====
-- Changes and mutations (core/src/primitives/mutation.rs), with the plot events that they carry
-- (core/src/record_keeper/events.rs). A failed assertion is a panic.
pub mod Laws
use blockscape.HashMap.{HashMap}
use blockscape.Coord.{Coord}
use blockscape.Event.{RawEvent}
use Prim.Native.Nat.{min, max}
use blockscape.Base.{
  ℕ, ◌+◌, ◌-◌, ◌*◌, ◌^◌, Bool, true, false, not, ◌&&◌, Option, none, some, List, [], ◌∷◌, ◌++◌, Bin,
  length, if◌then◌else◌,
}

-- `to` is a `BTreeSet`: its plots in ascending order.
pub record PlotEvent : Type 0 where
  pub from : Coord
  pub to : List Coord
  pub tick : ℕ
  pub event : RawEvent

-- The size of a `PlotID` in bytes.
abbrev plot_id_size : ℕ
plot_id_size = 8

unfoldable pub event_size : PlotEvent → ℕ
event_size e = plot_id_size * (2 + length e.to) + length e.event + 1

pub data Change : Type 0 where
  admin : Bin → Option Bin → Change
  block_reward : ℕ → Bin → Change
  plot_event : PlotEvent → Change
  new_validator : Bin → Change
  slash : ℕ → ℕ → Bin → Change
  transfer : ℕ → HashMap ℕ ℕ → Change

abbrev value_length : Option Bin → ℕ
value_length none = 0
value_length (some a) = length a

-- `Change::calculate_size`
unfoldable pub change_size : Change → ℕ
unfolding event_size
change_size (admin key value) = 8 + (length key + 1 + value_length value + 2)
change_size (block_reward id proof) = 8 + (20 + length proof + 1)
change_size (plot_event e) = 8 + event_size e
change_size (new_validator pub_key) = 8 + (length pub_key + 1)
change_size (slash id amount proof) = 8 + (28 + length proof + 1)
change_size (transfer from to) = 8 + (20 + length to * 28)

pub record Mutation : Type 0 where
  pub contra : Bool
  pub changes : List Change

abbrev pub new : Mutation
new = record { contra = false; changes = [] }

abbrev pub new_contra : Mutation
new_contra = record { contra = true; changes = [] }

-- `merge` and `merge_clone`; `none` is the failed assertion that neither is a contra.
unfoldable pub merge : Mutation → Mutation → Option Mutation
merge m other =
    if not m.contra && not other.contra
    then some (record m { changes = m.changes ++ other.changes })
    else none

abbrev sizes : List Change → ℕ
sizes [] = 0
sizes (c ∷ cs) = change_size c + sizes cs

-- `Mutation::calculate_size`
unfoldable pub calculate_size : Mutation → ℕ
unfolding change_size
calculate_size m = 1 + 8 + sizes m.changes

-- The ticks of the plot events.
unfoldable pub event_ticks : List Change → List ℕ
event_ticks [] = []
event_ticks (plot_event e ∷ cs) = e.tick ∷ event_ticks cs
event_ticks (c ∷ cs) = event_ticks cs

abbrev pub foldl_min : ℕ → List ℕ → ℕ
foldl_min acc [] = acc
foldl_min acc (t ∷ ts) = foldl_min (min acc t) ts

abbrev pub foldl_max : ℕ → List ℕ → ℕ
foldl_max acc [] = acc
foldl_max acc (t ∷ ts) = foldl_max (max acc t) ts

abbrev pub u64_max : ℕ
u64_max = 2 ^ 64 - 1

unfoldable pub earliest_game_event : Mutation → ℕ
earliest_game_event m = foldl_min u64_max (event_ticks m.changes)

unfoldable pub latest_game_event : Mutation → ℕ
latest_game_event m = foldl_max 0 (event_ticks m.changes)
