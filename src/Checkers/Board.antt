-- ===== src/Checkers/Board.antt =====
-- The board of checkers (checkers/src/checkers.rs): eight rows of eight tiles.
pub mod Laws
pub mod Count
use blockscape.Base.{
  ℕ, ◌+◌, ◌*◌, ◌/◌, ◌%◌, Bool, ◌||◌, List, [], ◌∷◌, get_elem?, Option, none, some, set, ltb,
  if◌then◌else◌,
}
use blockscape.Checkers.Piece.{Tile, Result, ok, err, invalid_coordinate}

abbrev pub Row : Type 0
Row = List Tile

abbrev pub Board : Type 0
Board = List Row

-- `[x; 8]`
abbrev eight {ℓ} : {A : Type ℓ} → A → List A
eight x = x ∷ x ∷ x ∷ x ∷ x ∷ x ∷ x ∷ x ∷ []

-- A row of the opening position: the two tiles in turn.
abbrev alternate : Tile → Tile → Row
alternate a b = a ∷ b ∷ a ∷ b ∷ a ∷ b ∷ a ∷ b ∷ []

abbrev pub default : Board
default =
    let n = Tile.none in
    let r = Tile.red in
    let b = Tile.black in
    alternate b n
    ∷ alternate n b
    ∷ alternate b n
    ∷ eight n
    ∷ eight n
    ∷ alternate n r
    ∷ alternate r n
    ∷ alternate n r
    ∷ []

abbrev pub new : Board
new = eight (eight Tile.none)

abbrev pub or_none : Option Tile → Tile
or_none none = Tile.none
or_none (some t) = t

abbrev pub row : Board → ℕ → Row
row b r = elim (get_elem? b r) [ none ↦ [] | some l ↦ l ]

-- `self.0[r][c]`; the laws of `Play` show that no index leaves the board.
unfoldable pub tile : Board → ℕ → ℕ → Tile
tile b r c = or_none (get_elem? (row b r) c)

-- `self.0[r][c] = t`
unfoldable pub put : Board → ℕ → ℕ → Tile → Board
put b r c t = set b r (set (row b r) c t)

unfoldable pub idx_to_rc : ℕ → Result (ℕ × ℕ)
idx_to_rc idx = if ltb 63 idx then err invalid_coordinate else ok (idx / 8, idx % 8)

unfoldable pub rc_to_idx : ℕ → ℕ → Result ℕ
rc_to_idx r c = if ltb 7 r || ltb 7 c then err invalid_coordinate else ok (r * 8 + c)
