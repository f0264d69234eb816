-- ===== src/Checkers/Board/Laws.antt =====
-- Reading and writing tiles, counting pieces, and indices.
use blockscape.Base.{
  ℕ, zero, suc, ◌≤◌, ◌<◌, ◌≡◌, refl, ap, ◌&&◌, List, [], ◌∷◌, get_elem?, some, set, length, nat_eq,
  ◌==◌, if◌then◌else◌, arith,
}
use blockscape.Checkers.Piece.{Tile, ok}
use blockscape.Checkers.Board.{Row, Board, row, tile, put, idx_to_rc, rc_to_idx}

-- Every index has its row and column, and they give the index back.
pub rc_to_idx-idx_to_rc :
    (idx : ℕ) {r c : ℕ} → idx_to_rc idx ≡ ok (r, c) → (r < 8) × (c < 8) × (rc_to_idx r c ≡ ok idx)
unfolding idx_to_rc rc_to_idx
rc_to_idx-idx_to_rc idx h = ground arith

pub idx_to_rc-rc_to_idx : (r c : ℕ) {idx : ℕ} → rc_to_idx r c ≡ ok idx → idx_to_rc idx ≡ ok (r, c)
unfolding idx_to_rc rc_to_idx
idx_to_rc-rc_to_idx r c h = ground arith

-- Every row has eight tiles.
abbrev pub AllEight : Board → Type 0
AllEight [] = Unit
AllEight (l ∷ b) = (length l ≡ 8) × AllEight b

pub record IsShaped (b : Board) : Type 0 where
  pub rows : length b ≡ 8
  pub columns : AllEight b

module _ {ℓ} {A : Type ℓ} where
  pub length-set : (xs : List A) (i : ℕ) (v : A) → length (set xs i v) ≡ length xs
  length-set [] i v = refl
  length-set (x ∷ xs) zero v = refl
  length-set (x ∷ xs) (suc i) v = ap suc (length-set xs i v)

  pub get_elem?-set :
      (xs : List A) (i j : ℕ) (v : A)
      → i < length xs
      → get_elem? (set xs i v) j ≡ (if i == j then some v else get_elem? xs j)
  get_elem?-set [] i j v h = absurd (omega arith)
  get_elem?-set (x ∷ xs) zero zero v h = refl
  get_elem?-set (x ∷ xs) zero (suc j) v h = ground arith
  get_elem?-set (x ∷ xs) (suc i) zero v h = ground arith
  get_elem?-set (x ∷ xs) (suc i) (suc j) v h = ground (arith, get_elem?-set xs i j v)

length-row : (b : Board) (r : ℕ) → AllEight b → r < length b → length (row b r) ≡ 8
length-row [] r h g = absurd (omega arith)
length-row (l ∷ b) zero h g = h.0
length-row (l ∷ b) (suc r) h g = length-row b r h.1 (omega arith)

set-AllEight : (b : Board) (r : ℕ) (l : Row) → AllEight b → length l ≡ 8 → AllEight (set b r l)
set-AllEight [] r l h e = tt
set-AllEight (k ∷ b) zero l h e = (e, h.1)
set-AllEight (k ∷ b) (suc r) l h e = (h.0, set-AllEight b r l h.1 e)

module _ (b : Board) (r c : ℕ) (s : IsShaped b) (hr : r ≤ 7) (hc : c ≤ 7) where
  pub length-row_eight : length (row b r) ≡ 8
  length-row_eight = length-row b r s.columns (omega (arith, s.rows))

  pub put-IsShaped : (t : Tile) → IsShaped (put b r c t)
  unfolding put
  put-IsShaped t = record {
    rows = omega (arith, length-set b r (set (row b r) c t), s.rows);
    columns =
        set-AllEight b r (set (row b r) c t) s.columns
          (omega (arith, length-set (row b r) c t, length-row_eight));
  }

  -- A write is read back at its place, and leaves every other tile.
  pub tile-put :
      (t : Tile) (i j : ℕ) → tile (put b r c t) i j ≡ (if r == i && c == j then t else tile b i j)
  unfolding put tile
  tile-put t i j = ground (
    arith,
    get_elem?-set b r i (set (row b r) c t),
    get_elem?-set (row b r) c j t,
    s.rows,
    length-row_eight,
  )
