-- ===== src/Tests/Cache.antt =====
-- Examples of the cache of game states; a state is a number.
use blockscape.Coord.{Coord, coord_eq}
use blockscape.GameState.{GameStateCache, new, cache_state, latest}
use blockscape.GameState.Laws.{
  IsValid, state_at, new-IsValid, state_at-cache_state, cache_state-IsValid,
}
use blockscape.GameState.Lookup.{Finds, latest-Finds}
use blockscape.Base.{ℕ, ◌≡◌, none, some, ltb, ◌==◌, nat_eq, if◌then◌else◌}
use blockscape.Base.Int.{pos}

abbrev home : Coord
home = record { x = pos 0; y = pos 1 }

abbrev away : Coord
away = record { x = pos 2; y = pos 1 }

-- The plot `home` at the ticks 3 and 7, and `away` at 5.
abbrev one : GameStateCache ℕ
one = cache_state new 3 home 30

abbrev two : GameStateCache ℕ
two = cache_state one 7 home 70

abbrev three : GameStateCache ℕ
three = cache_state two 5 away 50

three-IsValid : IsValid three
three-IsValid =
    cache_state-IsValid two 5 away 50
      (cache_state-IsValid one 7 home 70 (cache_state-IsValid new 3 home 30 new-IsValid))

abbrev t4 : ℕ
t4 = 4

abbrev t7 : ℕ
t7 = 7

-- The state at tick 4 ends the one at tick 7.
state_at-cache_state_example : state_at (cache_state three t4 home 40) t7 home ≡ (
    if ◌==◌ {T = Coord} home home
    then (if t4 == t7 then some 40 else if ltb t4 t7 then none else state_at three t7 home)
    else state_at three t7 home)
state_at-cache_state_example = state_at-cache_state three t4 t7 home home 40 three-IsValid

latest-Finds_example : Finds three home 6 (latest three home (some 6))
latest-Finds_example = latest-Finds three home 6 three-IsValid
