-- ===== src/GameState.antt =====
-- The cache of game states by plot and tick (core/src/record_keeper/game_state.rs). A state `S` is
-- any type. The `HashMap`s by plot are association lists; `states` is a `BTreeMap` by tick. What
-- the source takes out of a map with `unwrap` is an `Option` here: `none` is the panic.
pub mod Laws
pub mod Lookup
use mathlib.Core.Option
use blockscape.BTreeMap
use blockscape.BTreeMap.{BTreeMap}
use blockscape.HashMap
use blockscape.PlotMap.{PlotMap}
use blockscape.Coord.{Coord, coord_eq}
use blockscape.Base.{
  ℕ, Bool, true, false, Option, none, some, List, [], ◌∷◌, reverse, leb, ltb, if◌then◌else◌,
}

pub record GameStateCache (S : Type 0) : Type 0 where
  pub states : BTreeMap (PlotMap S)
  pub latest_of : PlotMap ℕ

-- A call that may panic.
pub data Fallible (A : Type 0) : Type 0 where
  done : A → Fallible A
  panic : Fallible A

abbrev is_after : Option ℕ → ℕ → Bool
is_after none tick = false
is_after (some l) tick = ltb tick l

module _ {S : Type 0} where
  unfoldable pub new : GameStateCache S
  new = record { states = []; latest_of = [] }

  abbrev or_new : Option (PlotMap S) → PlotMap S
  or_new none = []
  or_new (some plots) = plots

  -- Entries from the last, until a tick is not after `tick`.
  unfoldable pub drop_after_of : Coord → ℕ → BTreeMap (PlotMap S) → BTreeMap (PlotMap S)
  drop_after_of plot tick [] = []
  drop_after_of plot tick ((t, plots) ∷ m) =
      (t, if leb t tick then plots else HashMap.remove plot plots) ∷ drop_after_of plot tick m

  abbrev put_back : ℕ → Option (PlotMap S) → BTreeMap (PlotMap S) → BTreeMap (PlotMap S)
  put_back tick none m = m
  put_back tick (some plots) m = BTreeMap.insert tick plots m

  unfoldable pub drop_after : GameStateCache S → ℕ → Option Coord → GameStateCache S
  unfolding drop_after_of
  drop_after cache tick (some plot) = record cache { states = drop_after_of plot tick cache.states }
  drop_after cache tick none = record cache {
    states =
        put_back tick (BTreeMap.get tick cache.states)
          (BTreeMap.before tick (BTreeMap.remove tick cache.states));
  }

  -- `GameStateCache::cache`
  unfoldable pub cache_state : GameStateCache S → ℕ → Coord → S → GameStateCache S
  unfolding drop_after
  cache_state cache tick plot state =
      let plots = or_new (BTreeMap.get tick cache.states) in
      let cached = record cache {
        states = BTreeMap.insert tick (HashMap.insert plot state plots) cache.states;
      } in
      let kept =
        if is_after (HashMap.get plot cached.latest_of) tick
        then drop_after cached tick (some plot)
        else cached in
      record kept { latest_of = HashMap.insert plot tick kept.latest_of }

  -- The last entry of the plot at or before a tick, with its tick.
  unfoldable pub last_at : Coord → ℕ → BTreeMap (PlotMap S) → Option (ℕ × S)
  last_at plot tick [] = none
  last_at plot tick ((t, plots) ∷ m) =
      let here = Option.map (λ (s : S). (t, s)) (HashMap.get plot plots) in
      elim (last_at plot tick m) [
        | some found ↦ some found
        | none ↦ if leb t tick then here else none
      ]

  abbrev unwrap_at : ℕ → Option S → Fallible (Option (ℕ × S))
  unwrap_at l none = panic
  unwrap_at l (some state) = done (some (l, state))

  -- `latest` of a plot whose latest tick is `l`.
  abbrev latest_of_known : GameStateCache S → Coord → Option ℕ → ℕ → Fallible (Option (ℕ × S))
  latest_of_known cache plot none l =
      unwrap_at l (HashMap.get plot (or_new (BTreeMap.get l cache.states)))
  latest_of_known cache plot (some tick) l =
      if leb l tick
      then unwrap_at l (HashMap.get plot (or_new (BTreeMap.get l cache.states)))
      else done (last_at plot tick cache.states)

  -- `GameStateCache::latest`
  unfoldable pub latest : GameStateCache S → Coord → Option ℕ → Fallible (Option (ℕ × S))
  unfolding last_at
  latest cache plot tick = elim (HashMap.get plot cache.latest_of) [
    | none ↦ done none
    | some l ↦ latest_of_known cache plot tick l
  ]

  unfoldable pub drop_before_of : Coord → ℕ → BTreeMap (PlotMap S) → BTreeMap (PlotMap S)
  drop_before_of plot tick [] = []
  drop_before_of plot tick ((t, plots) ∷ m) =
      let rest = drop_before_of plot tick m in
      if leb tick t then (t, plots) ∷ m else (t, HashMap.remove plot plots) ∷ rest

  unfoldable pub drop_before : GameStateCache S → ℕ → Option Coord → GameStateCache S
  unfolding drop_before_of
  drop_before cache tick (some plot) = record cache {
    states = drop_before_of plot tick cache.states;
  }
  drop_before cache tick none = record cache { states = BTreeMap.split_off tick cache.states }

  abbrev remove_all : Coord → BTreeMap (PlotMap S) → BTreeMap (PlotMap S)
  remove_all plot [] = []
  remove_all plot ((t, plots) ∷ m) = (t, HashMap.remove plot plots) ∷ remove_all plot m

  unfoldable pub drop_plot : GameStateCache S → Coord → GameStateCache S
  drop_plot cache plot = record cache { states = remove_all plot cache.states }
