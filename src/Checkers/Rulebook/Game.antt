-- ===== src/Checkers/Rulebook/Game.antt =====
-- The rule that games are played by the rules of checkers (`Game` of checkers/src/rules/game.rs). The
-- cache of boards is passed along, and what was cached before an error stays in it.
use blockscape.Coord.{Coord}
use blockscape.Event.{RawEvents}
use blockscape.Mutation.{Change}
use blockscape.GameState
use blockscape.GameState.{GameStateCache, Fallible, done, latest, cache_state}
use blockscape.Checkers.Piece
use blockscape.Checkers.Piece.{Event, Player, from_turn}
use blockscape.Checkers.Board.{Board, default}
use blockscape.Checkers.Play.{Outcome, play}
use blockscape.Checkers.Rulebook.{
  Verdict, ok, invalid, failed, panic, ◌>>=◌, unwrap, first, GameEvent, get_events,
}
use blockscape.Base.{
  ℕ, ◌+◌, ◌-◌, Option, none, some, List, [], ◌∷◌, Bin, ltb, nat_eq, if◌then◌else◌,
}

abbrev pub Cache : Type 0
Cache = GameStateCache Board

-- `unwrap` of a result of the game, and of a look-up in the cache.
abbrev pub unwrap_result : {A : Type 0} → Piece.Result A → Verdict A
unwrap_result (Piece.ok a) = ok a
unwrap_result (Piece.err e) = panic

abbrev pub looked_up : {A : Type 0} → Fallible A → Verdict A
looked_up (done a) = ok a
looked_up GameState.panic = panic

-- The board that a play leaves, when the play must succeed, and when its error breaks the rule.
abbrev pub must_succeed : Outcome (Unit {0}) → Verdict Board
must_succeed (b, Piece.ok u) = ok b
must_succeed (b, Piece.err e) = panic

abbrev pub judged : Outcome (Unit {0}) → Verdict Board
judged (b, Piece.ok u) = ok b
judged (b, Piece.err e) = invalid

module _ (plot_events : Coord → ℕ → Verdict RawEvents) (decode : Bin → Option Event) where
  -- The stored events, played one after the other.
  unfoldable pub replay : RawEvents → Board → Verdict Board
  unfolding play from_turn
  replay [] board = ok board
  replay (entry ∷ events) board = do
    raw ← first entry.1
    event ← unwrap (decode raw)
    player ← unwrap_result (from_turn entry.0)
    next ← must_succeed (play board event player)
    replay events next

  -- The cached board, or the board at the start with the tick 2.
  abbrev pub start_from : Option (ℕ × Board) → ℕ × Board
  start_from none = (2, default)
  start_from (some s) = s

  abbrev pub catch_up : GameEvent → ℕ × Board → Verdict Board
  catch_up e s =
      if ltb (s.0 + 1) e.tick
      then (plot_events e.from (s.0 + 1) >>= λ old_events. replay old_events s.1)
      else ok s.1

  -- The board after the event, which the board before it must allow.
  abbrev pub rule_move : GameEvent → Cache → Verdict Board
  rule_move e cache = do
    found ← looked_up (latest cache e.from (some (e.tick - 1)))
    board ← catch_up e (start_from found)
    player ← unwrap_result (from_turn e.tick)
    judged (play board e.event player)

  abbrev pub next_cache : GameEvent → Cache → Verdict Board → Verdict Cache
  next_cache e cache r = r >>= λ board. ok (cache_state cache e.tick e.from board)

  -- One round of the loop; events that set a game up are passed over.
  abbrev pub game_step : GameEvent → Cache → Verdict Cache
  game_step e cache = if ltb e.tick 2 then ok cache else next_cache e cache (rule_move e cache)

  -- The loop, with the cache that it leaves.
  unfoldable pub game_steps : List GameEvent → Cache → Verdict (Unit {0}) × Cache
  unfolding latest cache_state replay play from_turn
  game_steps [] cache = (ok tt, cache)
  game_steps (e ∷ events) cache = elim (game_step e cache) [
    | ok next ↦ game_steps events next
    | invalid ↦ (invalid, cache)
    | failed ↦ (failed, cache)
    | panic ↦ (panic, cache)
  ]

  abbrev pub rule_on : Verdict (List GameEvent) → Cache → Verdict (Unit {0}) × Cache
  rule_on (ok events) cache = game_steps events cache
  rule_on invalid cache = (invalid, cache)
  rule_on failed cache = (failed, cache)
  rule_on panic cache = (panic, cache)

  -- `Game::is_valid`
  unfoldable pub is_valid : List (Change × ℕ) → Cache → Verdict (Unit {0}) × Cache
  unfolding game_steps get_events
  is_valid mutation cache = rule_on (get_events decode mutation) cache
