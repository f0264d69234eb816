-- ===== src/Tests/Referees.antt =====
-- Examples of the rules of checkers on a block chain.
use blockscape.Coord.{Coord, coord_beq}
use blockscape.Event.{RawEvents}
use blockscape.GameState.{latest, cache_state, new}
use blockscape.GameState.Laws.{IsValid, state_at, cache_state-IsValid, new-IsValid}
use blockscape.Mutation.{Change, plot_event}
use blockscape.Checkers.Piece
use blockscape.Checkers.Piece.{
  Event, Player, start, move, from_turn, ne, is_this_player, valid_direction, move_in_dir,
}
use blockscape.Checkers.Board.{Board, default, idx_to_rc, tile}
use blockscape.Checkers.Play.{play}
use blockscape.Checkers.Rulebook.{Verdict, ok, GameEvent, get_events}
use blockscape.Checkers.Rulebook.Turns.{Boards, all_turns, is_valid}
use blockscape.Checkers.Rulebook.Fair.{AllFair, is_valid-AllFair}
use blockscape.Checkers.Rulebook.Game.{Cache}
use blockscape.Checkers.Rulebook.Replay.{game_step_lem}
use blockscape.Base.{ℕ, zero, ◌≡◌, refl, Option, some, List, [], ◌∷◌, Bin, arith}
use blockscape.Base.Int.{pos}
use blockscape.Base.Words.{as_usize, add_i8, as_i8}

abbrev here : Coord
here = record { x = pos 0; y = pos 0 }

-- The accounts 7 and 8 have started a game.
abbrev started : Coord → ℕ → Verdict RawEvents
started plot tick = ok ((0, (0 ∷ []) ∷ []) ∷ [])

-- The event 0 is the start, and every other one a move of a red man.
abbrev decode : Bin → Option Event
decode (zero ∷ []) = some (start 7 8)
decode _ = some (move 41 ne)

-- The account 7 plays the first turn.
abbrev first_turn : List (Change × ℕ)
first_turn = (plot_event (record { from = here; to = []; tick = 2; event = 1 ∷ [] }), 7) ∷ []

is_valid-AllFair_example :
    (events : List GameEvent) × (boards : Boards) × (get_events decode first_turn ≡ ok events)
    × (all_turns started decode events [] ≡ ok boards)
    × AllFair boards events
unfolding is_valid coord_beq
is_valid-AllFair_example = is_valid-AllFair started decode first_turn refl

abbrev turn : ℕ → GameEvent
turn t = record { from = here; to = []; tick = t; event = move 41 ne; player = 7 }

-- The board at the start, at tick 3.
abbrev cache : Cache
cache = cache_state new 3 here default

cache-IsValid : IsValid cache
cache-IsValid = cache_state-IsValid new 3 here default new-IsValid

game_step_lem_example :
    (b : Board) × (play default (move 41 ne) Player.red ≡ (b, Piece.ok tt))
    × (state_at (cache_state cache 4 here (play default (move 41 ne) Player.red).0) 4 here ≡ some b)
unfolding from_turn latest cache_state new coord_beq play idx_to_rc tile is_this_player
    valid_direction move_in_dir as_usize add_i8 as_i8
game_step_lem_example =
    game_step_lem started decode (turn 4) cache
      (cache_state cache 4 here (play default (move 41 ne) Player.red).0) default Player.red
      cache-IsValid (omega arith) refl refl refl
