-- ===== src/Tests/Games.antt =====
-- Examples of checkers.
use blockscape.Checkers.Piece.{Player, ne, Tile, jump, ok}
use blockscape.Checkers.Board.{Board, default, put}
use blockscape.Checkers.Board.Laws.{IsShaped, put-IsShaped}
use blockscape.Checkers.Play.{play, play_move}
use blockscape.Checkers.Play.Outcome.{Accounts, captures, play-Accounts}
use blockscape.Checkers.Play.Rules.{CanMove, play_move_iff}
use blockscape.Base.{ℕ, ◌≡◌, ◌↔◌, refl, nat_eq, [], ◌∷◌, arith}

default-IsShaped : IsShaped default
default-IsShaped = record { rows = refl; columns = ground arith }

-- The opening with a black piece next to a red one.
abbrev taken : Board
taken = put default 4 2 Tile.black

taken-IsShaped : IsShaped taken
taken-IsShaped = put-IsShaped default 4 2 default-IsShaped (omega arith) (omega arith) Tile.black

-- The red piece jumps over it.
play-Accounts_example :
    Accounts taken Player.red
      (captures (jump 41 (ne ∷ [])))
      (play taken (jump 41 (ne ∷ [])) Player.red)
play-Accounts_example = play-Accounts taken (jump 41 (ne ∷ [])) Player.red taken-IsShaped

play_move_iff_example :
    ((play_move default Player.red ne 5 1).1 ≡ ok tt) ↔ CanMove default Player.red ne 5 1
play_move_iff_example = play_move_iff default Player.red ne 5 1

abbrev five : ℕ
five = 5

abbrev one : ℕ
one = 1
