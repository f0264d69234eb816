-- ===== src/Checkers/Play.antt =====
-- Playing an event on the board: `Board::play` (checkers/src/checkers.rs). The board comes back
-- with the result, since the method changes it in place.
pub mod Steps
pub mod Pieces
pub mod Outcome
pub mod Rules
use blockscape.Base.{ℕ, Bool, not, ◌||◌, List, [], ◌∷◌, ltb, nat_eq, ◌==◌, if◌then◌else◌}
use blockscape.Checkers.Piece.{
  Player, Direction, Tile, Event, start, join, move, jump, Error, Result, ok, err, missing_piece,
  wrong_player, invalid_play, game_already_started, move_in_dir, jump_in_dir, is_none,
  is_this_player, is_other_player, valid_direction, upgrade,
}
use blockscape.Checkers.Board.{Board, tile, put, idx_to_rc}

abbrev pub Outcome : Type 0 → Type 0
Outcome A = Board × Result A

abbrev pub fail : {A : Type 0} → Board → Error → Outcome A
fail b e = (b, err e)

-- `if nr == 0 || nr == 7`: a piece on the first or the last row is crowned.
unfoldable pub crown : Board → ℕ → ℕ → Board
crown b r c = if r == 0 || r == 7 then put b r c (upgrade (tile b r c)) else b

-- Moving the piece at a place to another.
unfoldable pub shift : Board → ℕ → ℕ → ℕ → ℕ → Board
shift b r c nr nc = put (put b nr nc (tile b r c)) r c Tile.none

-- The arm of `Event::Move`, from the row and column on.
unfoldable pub play_move : Board → Player → Direction → ℕ → ℕ → Outcome (Unit {0})
unfolding shift crown
play_move b player dir r c =
    let (nr, nc) = move_in_dir dir r c in
    if is_none (tile b r c)
    then fail b missing_piece
    else if not (is_this_player (tile b r c) player)
    then fail b wrong_player
    else if not (valid_direction (tile b r c) dir)
    then fail b invalid_play
    else if ltb 7 nr || ltb 7 nc || not (is_none (tile b nr nc))
    then fail b invalid_play
    else (crown (shift b r c nr nc) nr nc, ok tt)

-- The writes of one jump: the piece lands, and the tiles passed over and left are emptied.
unfoldable pub capture : Board → ℕ → ℕ → ℕ × ℕ → ℕ × ℕ → Board
capture b r c (pr, pc) (nr, nc) = put (put (put b nr nc (tile b r c)) pr pc Tile.none) r c Tile.none

-- The tests of one jump after that of its direction.
unfoldable pub cannot_land : Board → Player → ℕ × ℕ → ℕ × ℕ → Bool
cannot_land b player (pr, pc) (nr, nc) =
    ltb 7 nr
    || ltb 7 nc
    || not (is_none (tile b nr nc))
    || not (is_other_player (tile b pr pc) player)

-- `for dir in path`: on a failure the old board is restored.
unfoldable pub jump_path : Player → Board → List Direction → Board → ℕ → ℕ → Outcome (ℕ × ℕ)
unfolding cannot_land capture
jump_path player old [] b r c = (b, ok (r, c))
jump_path player old (dir ∷ path) b r c =
    let over = move_in_dir dir r c in
    let land = jump_in_dir dir r c in
    if not (valid_direction (tile b r c) dir)
    then fail old invalid_play
    else if cannot_land b player over land
    then fail old invalid_play
    else jump_path player old path (capture b r c over land) land.0 land.1

-- The end of the arm of `Event::Jump`.
abbrev finish_jump : Outcome (ℕ × ℕ) → Outcome (Unit {0})
finish_jump (b, ok (r, c)) = (crown b r c, ok tt)
finish_jump (b, err e) = (b, err e)

-- The arm of `Event::Jump`, from the row and column on.
unfoldable pub play_jump : Board → Player → List Direction → ℕ → ℕ → Outcome (Unit {0})
unfolding crown jump_path
play_jump b player path r c =
    if is_none (tile b r c)
    then fail b missing_piece
    else if not (is_this_player (tile b r c) player)
    then fail b wrong_player
    else finish_jump (jump_path player b path b r c)

abbrev at_idx : Board → Result (ℕ × ℕ) → (ℕ → ℕ → Outcome (Unit {0})) → Outcome (Unit {0})
at_idx b (ok (r, c)) k = k r c
at_idx b (err e) k = fail b e

unfoldable pub play : Board → Event → Player → Outcome (Unit {0})
unfolding play_move play_jump
play b (move idx dir) player = at_idx b (idx_to_rc idx) (play_move b player dir)
play b (jump idx path) player = at_idx b (idx_to_rc idx) (play_jump b player path)
play b (start p1 p2) player = fail b game_already_started
play b (join p) player = fail b game_already_started
