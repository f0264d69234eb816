-- ===== src/Checkers/Play/Rules.antt =====
-- The rules that a play enforces: exactly which moves succeed and what they leave, and how turns
-- alternate.
use blockscape.Base.{
  ℕ, ◌+◌, ◌≤◌, ◌≡◌, ◌≢◌, ◌↔◌, true, ◌&&◌, ◌||◌, [], nat_eq, ◌==◌, if◌then◌else◌, ap, arith,
}
use blockscape.Checkers.Piece.{
  Player, Direction, Tile, jump, ok, err, invalid_play, from_turn, move_in_dir, is_none,
  is_this_player, valid_direction, upgrade,
}
use blockscape.Checkers.Board.{Board, tile, put, idx_to_rc}
use blockscape.Checkers.Board.Laws.{IsShaped, put-IsShaped, tile-put}
use blockscape.Checkers.Play.{Outcome, crown, shift, play_move, play}
use blockscape.Checkers.Play.Steps.{move_in_dir-ne}

-- What a move asks for.
pub record CanMove (b : Board) (p : Player) (dir : Direction) (r c : ℕ) : Type 0 where
  pub own : is_this_player (tile b r c) p ≡ true
  pub ahead : valid_direction (tile b r c) dir ≡ true
  pub row : (move_in_dir dir r c).0 ≤ 7
  pub column : (move_in_dir dir r c).1 ≤ 7
  pub free : is_none (tile b (move_in_dir dir r c).0 (move_in_dir dir r c).1) ≡ true

-- The piece of a tile after it has come to a row.
abbrev pub arrived : ℕ → Tile → Tile
arrived r t = if r == 0 || r == 7 then upgrade t else t

play_move-ok :
    (b : Board) (p : Player) (dir : Direction) (r c : ℕ)
    → CanMove b p dir r c
    → play_move b p dir r c ≡ (
      crown
          (shift b r c (move_in_dir dir r c).0 (move_in_dir dir r c).1)
          (move_in_dir dir r c).0
          (move_in_dir dir r c).1,
      ok tt,
    )
unfolding play_move is_this_player
play_move-ok b p dir r c m = ground arith

-- A move succeeds exactly when the tile holds a piece of the player that may go in the direction,
-- and the next tile there is on the board and empty.
pub play_move_iff :
    (b : Board) (p : Player) (dir : Direction) (r c : ℕ)
    → ((play_move b p dir r c).1 ≡ ok tt) ↔ CanMove b p dir r c
unfolding play_move is_this_player
play_move_iff b p dir r c = (
  λ h. record {
    own = ground arith;
    ahead = ground arith;
    row = ground arith;
    column = ground arith;
    free = ground arith;
  },
  λ m. ap (λ (o : Outcome (Unit {0})). o.1) (play_move-ok b p dir r c m),
)

moved_tiles :
    (b : Board) (r c nr nc i j : ℕ)
    → IsShaped b
    → r ≤ 7
    → c ≤ 7
    → nr ≤ 7
    → nc ≤ 7
    → r ≢ nr
    → tile (crown (shift b r c nr nc) nr nc) i j ≡ (
        if r == i && c == j
        then Tile.none
        else if nr == i && nc == j
        then arrived nr (tile b r c)
        else tile b i j)
unfolding crown shift
moved_tiles b r c nr nc i j s hr hc h g ne =
    let t = tile b r c in
    let b1 = put b nr nc t in
    let s1 = put-IsShaped b nr nc s h g t in
    let b2 = put b1 r c Tile.none in
    let s2 = put-IsShaped b1 r c s1 hr hc Tile.none in
    ground (
      arith,
      tile-put b nr nc s h g t i j,
      tile-put b nr nc s h g t nr nc,
      tile-put b1 r c s1 hr hc Tile.none i j,
      tile-put b1 r c s1 hr hc Tile.none nr nc,
      tile-put b2 nr nc s2 h g (upgrade (tile b2 nr nc)) i j,
    )

-- A successful move empties its tile, puts the piece on the next one, as a king if that is in the
-- first or the last row, and leaves every other tile.
pub play_move_tiles :
    (b : Board) (p : Player) (dir : Direction) (r c i j : ℕ)
    → IsShaped b
    → r ≤ 7
    → c ≤ 7
    → CanMove b p dir r c
    → let (nr, nc) = move_in_dir dir r c in
      tile (play_move b p dir r c).0 i j ≡ (
        if r == i && c == j
        then Tile.none
        else if nr == i && nc == j
        then arrived nr (tile b r c)
        else tile b i j)
play_move_tiles b p dir r c i j s hr hc m =
    let (nr, nc) = move_in_dir dir r c in
    rw (play_move-ok b p dir r c m)
      (moved_tiles b r c nr nc i j s hr hc m.row m.column (move_in_dir-ne dir r c hr hc m.row))

-- A path of no jumps succeeds for every piece of the player: it is a turn without a move, and it
-- makes a man on the first or the last row a king.
pub play_empty_jump :
    (b : Board) (p : Player) (idx r c : ℕ)
    → idx_to_rc idx ≡ ok (r, c)
    → is_this_player (tile b r c) p ≡ true
    → play b (jump idx []) p ≡ (crown b r c, ok tt)
unfolding play is_this_player
play_empty_jump b p idx r c e h = ground arith

abbrev pub other_player : Player → Player
other_player Player.red = Player.black
other_player Player.black = Player.red

-- After a turn of one player comes a turn of the other, and from turn two on every turn has one.
pub from_turn_alternates :
    (t : ℕ) (p : Player)
    → (from_turn t ≡ ok p → from_turn (t + 1) ≡ ok (other_player p))
      × (from_turn (t + 2) ≢ err invalid_play)
unfolding from_turn
from_turn_alternates t p = (ground arith, ground arith)
