-- ===== src/Checkers/Board/Count.antt =====
-- Counting the tiles of a board that pass a test.
use blockscape.Base.{
  ℕ, zero, suc, ◌+◌, ◌≤◌, ◌<◌, ◌≡◌, Bool, true, false, [], ◌∷◌, get_elem?, set, length, arith,
}
use blockscape.Checkers.Piece.{Tile}
use blockscape.Checkers.Board.{Row, Board, or_none, row, tile, put}
use blockscape.Checkers.Board.Laws.{IsShaped, length-row_eight}

abbrev pub bit : Bool → ℕ
bit true = 1
bit false = 0

abbrev pub count_row : (Tile → Bool) → Row → ℕ
count_row f [] = 0
count_row f (t ∷ l) = bit (f t) + count_row f l

abbrev pub count : (Tile → Bool) → Board → ℕ
count f [] = 0
count f (l ∷ b) = count_row f l + count f b

module _ (f : Tile → Bool) where
  count_row-set :
      (l : Row) (i : ℕ) (t : Tile)
      → i < length l
      → count_row f (set l i t) + bit (f (or_none (get_elem? l i))) ≡ count_row f l + bit (f t)
  count_row-set [] i t h = absurd (omega arith)
  count_row-set (x ∷ l) zero t h = omega arith
  count_row-set (x ∷ l) (suc i) t h = omega (arith, count_row-set l i t (omega arith))

  count-set :
      (b : Board) (r : ℕ) (l : Row)
      → r < length b
      → count f (set b r l) + count_row f (row b r) ≡ count f b + count_row f l
  count-set [] r l h = absurd (omega arith)
  count-set (k ∷ b) zero l h = omega arith
  count-set (k ∷ b) (suc r) l h = omega (arith, count-set b r l (omega arith))

  -- A write changes the count by what it replaces and what it puts.
  pub count-put :
      (b : Board) (r c : ℕ) (t : Tile)
      → IsShaped b
      → r ≤ 7
      → c ≤ 7
      → count f (put b r c t) + bit (f (tile b r c)) ≡ count f b + bit (f t)
  unfolding put tile
  count-put b r c t s hr hc = omega (
    arith,
    count-set b r (set (row b r) c t) (omega (arith, s.rows)),
    count_row-set (row b r) c t (omega (arith, length-row_eight b r c s hr hc)),
  )
