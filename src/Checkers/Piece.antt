-- ===== src/Checkers/Piece.antt =====
-- The pieces of checkers (checkers/src/checkers.rs): players, directions, tiles, events and errors.
use blockscape.Base.{ℕ, ◌%◌, Bool, true, false, not, ◌||◌, List, nat_eq, ◌==◌, if◌then◌else◌}
use blockscape.Base.Int.{ℤ, pos, negsuc, ◌*ℤ◌}
use blockscape.Base.Words.{as_i8, add_i8, as_usize}

pub data Player : Type 0 where
  red black : Player

pub data Error : Type 0 where
  game_already_started invalid_play wrong_player missing_piece invalid_coordinate : Error

pub data Result {ℓ} (A : Type ℓ) : Type ℓ where
  ok : A → Result A
  err : Error → Result A

infixl 5 ◌>>=◌
abbrev pub ◌>>=◌ {ℓ κ} : {A : Type ℓ} {B : Type κ} → Result A → (A → Result B) → Result B
ok a >>= f = f a
err e >>= f = err e

-- Whose turn it is: turns 0 and 1 set the game up.
unfoldable pub from_turn : ℕ → Result Player
from_turn turn =
    if turn == 0 || turn == 1
    then err invalid_play
    else if turn % 2 == 0
    then ok Player.red
    else ok Player.black

pub data Direction : Type 0 where
  nw ne se sw : Direction

unfoldable pub dir_vec : Direction → ℤ × ℤ
dir_vec nw = (negsuc 0, negsuc 0)
dir_vec ne = (negsuc 0, pos 1)
dir_vec se = (pos 1, pos 1)
dir_vec sw = (pos 1, negsuc 0)

-- `(r as i8 + dr) as usize`
abbrev pub offset : ℕ → ℤ → ℕ
offset r d = as_usize (add_i8 (as_i8 r) d)

unfoldable pub move_in_dir : Direction → ℕ → ℕ → ℕ × ℕ
unfolding dir_vec
move_in_dir dir r c = let (dr, dc) = dir_vec dir in (offset r dr, offset c dc)

unfoldable pub jump_in_dir : Direction → ℕ → ℕ → ℕ × ℕ
unfolding dir_vec ◌*ℤ◌
jump_in_dir dir r c = let (dr, dc) = dir_vec dir in (offset r (dr *ℤ pos 2), offset c (dc *ℤ pos 2))

-- `U160` player identities are numbers.
pub data Event : Type 0 where
  start : ℕ → ℕ → Event
  join : ℕ → Event
  move : ℕ → Direction → Event
  jump : ℕ → List Direction → Event

pub data Tile : Type 0 where
  none red red_king black black_king : Tile

unfoldable pub upgrade : Tile → Tile
upgrade Tile.red = red_king
upgrade Tile.black = black_king
upgrade t = t

abbrev pub player_beq : Player → Player → Bool
player_beq Player.red Player.red = true
player_beq Player.black Player.black = true
player_beq _ _ = false

abbrev pub is_none : Tile → Bool
is_none Tile.none = true
is_none _ = false

unfoldable pub is_this_player : Tile → Player → Bool
is_this_player Tile.red p = player_beq p Player.red
is_this_player red_king p = player_beq p Player.red
is_this_player Tile.black p = player_beq p Player.black
is_this_player black_king p = player_beq p Player.black
is_this_player Tile.none p = false

unfoldable pub is_other_player : Tile → Player → Bool
is_other_player Tile.red p = not (player_beq p Player.red)
is_other_player red_king p = not (player_beq p Player.red)
is_other_player Tile.black p = not (player_beq p Player.black)
is_other_player black_king p = not (player_beq p Player.black)
is_other_player Tile.none p = false

abbrev pub dir_beq : Direction → Direction → Bool
dir_beq nw nw = true
dir_beq ne ne = true
dir_beq se se = true
dir_beq sw sw = true
dir_beq _ _ = false

unfoldable pub valid_direction : Tile → Direction → Bool
valid_direction Tile.red dir = dir_beq dir ne || dir_beq dir nw
valid_direction Tile.black dir = dir_beq dir se || dir_beq dir sw
valid_direction red_king dir = true
valid_direction black_king dir = true
valid_direction Tile.none dir = false
