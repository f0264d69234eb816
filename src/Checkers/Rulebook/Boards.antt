-- ===== src/Checkers/Rulebook/Boards.antt =====
-- The games as a player sees them (`get_board`, `get_players` and `get_moves` of
-- checkers/src/game.rs).
use blockscape.BTreeMap
use blockscape.Coord.{Coord}
use blockscape.Event.{RawEvent, RawEvents}
use blockscape.GameState.{latest}
use blockscape.Checkers.Piece.{Event, from_turn}
use blockscape.Checkers.Board.{Board, default}
use blockscape.Checkers.Play.{play}
use blockscape.Checkers.Rulebook.{Verdict, ok, panic, ◌>>=◌, read, first}
use blockscape.Checkers.Rulebook.Turns.{players_of, joiner_of, stored}
use blockscape.Checkers.Rulebook.Game.{Cache, unwrap_result, looked_up, must_succeed}
use blockscape.Base.{ℕ, Option, none, some, List, [], ◌∷◌, Bin, ltb, nat_eq, ◌==◌, if◌then◌else◌}

module _ (plot_events : Coord → ℕ → Verdict RawEvents) (decode : Bin → Option Event) where
  -- The stored events played from the first to the one at a tick, but for that at 0.
  unfoldable pub replay_until : ℕ → RawEvents → Board → Verdict Board
  unfolding play from_turn
  replay_until tick [] board = ok board
  replay_until tick (entry ∷ events) board =
      let skipped = replay_until tick events board in
      if entry.0 == 0
      then skipped
      else if ltb tick entry.0
      then ok board
      else (first entry.1 >>= λ raw. read (decode raw) >>= λ event.
          unwrap_result (from_turn entry.0) >>= λ player.
          must_succeed (play board event player) >>= λ next. replay_until tick events next)

  abbrev pub or_default : Option (ℕ × Board) → ℕ × Board
  or_default none = (0, default)
  or_default (some s) = s

  -- The board that was found, or, if it is not before the tick, with the events played on it.
  abbrev pub board_at : Coord → Option ℕ → ℕ × Board → Verdict Board
  board_at location none s = ok s.1
  board_at location (some tick) s =
      if ltb s.0 tick
      then ok s.1
      else (plot_events location 0 >>= λ raw_events. replay_until tick raw_events s.1)

  unfoldable pub get_board : Coord → Option ℕ → Cache → Verdict Board
  unfolding latest replay_until
  get_board location tick cache =
      looked_up (latest cache location tick) >>= λ found. board_at location tick (or_default found)

  -- The joiner takes the first seat that is free; none is unreachable.
  abbrev pub seated : ℕ × ℕ → ℕ → Verdict (ℕ × ℕ)
  seated players player =
      if players.0 == 0
      then ok (player, players.1)
      else if players.1 == 0
      then ok (players.0, player)
      else panic

  abbrev pub with_join : List RawEvent → Option (List RawEvent) → Verdict (ℕ × ℕ)
  with_join s none = stored plot_events decode s >>= players_of plot_events decode
  with_join s (some j) = do
    event ← stored plot_events decode s
    players ← players_of plot_events decode event
    joined ← stored plot_events decode j
    player ← joiner_of plot_events decode joined
    seated players player

  abbrev pub players_in : RawEvents → Option (List RawEvent) → Verdict (ℕ × ℕ)
  players_in events none = ok (0, 0)
  players_in events (some s) = with_join s (BTreeMap.get 1 events)

  unfoldable pub get_players : Coord → Verdict (ℕ × ℕ)
  get_players location =
      plot_events location 0 >>= λ events. players_in events (BTreeMap.get 0 events)

  unfoldable pub moves_in : RawEvents → Verdict (List Event)
  moves_in [] = ok []
  moves_in (entry ∷ events) = do
    raw ← first entry.1
    event ← read (decode raw)
    rest ← moves_in events
    ok (event ∷ rest)

  unfoldable pub get_moves : Coord → Verdict (List Event)
  unfolding moves_in
  get_moves location = plot_events location 2 >>= moves_in
