-- ===== src/Tests/Grids.antt =====
-- Examples of the grids.
use blockscape.Grid.{
  Grid, Structure, StructureNode, remove_segments, is_adj, new, contains_segment, has_node,
}
use blockscape.Grid.Net
use blockscape.Grid.Joins.{any_segment-add_segment}
use blockscape.Grid.Laws.{remove_segments_lem, any_segment, all_have}
use blockscape.Coord.{Coord, coord_eq, coord_beq}
use blockscape.Base.{◌≡◌, refl, true, not, ◌&&◌, ◌||◌, ◌==◌, some, List, [], ◌∷◌, contains, length}
use blockscape.Base.Int.{ℤ, pos, negsuc, ◌-ℤ◌, ◌+ℤ◌}
use blockscape.Base.Words.{wrap_i32}

abbrev at : ℤ → ℤ → Coord
at x y = record { x = x; y = y }

abbrev station : Structure
station = record { id = 7; location = at (pos 4) (pos 0); xy_len = (2, 2) }

abbrev line : Grid
line = record {
  segments = at (pos 0) (pos 0) ∷ at (pos 1) (pos 0) ∷ at (pos 2) (pos 0) ∷ at (pos 3) (pos 0) ∷ [];
  buildings = record { structure = station; priority = 1 } ∷ [];
}

-- A line of four loses its second piece.
remove_segments_lem_example :
    (grids : List Grid) × (remove_segments (at (pos 1) (pos 0) ∷ []) line ≡ some grids)
    × ((p : Coord)
        → any_segment p grids
          ≡ (contains_segment p line && not (contains (at (pos 1) (pos 0) ∷ []) p)))
    × ((b : StructureNode) → has_node b line.buildings ≡ true → all_have b grids ≡ true)
remove_segments_lem_example = remove_segments_lem (at (pos 1) (pos 0) ∷ []) line

-- A segment at the end of the line.
any_segment-add_segment_example :
    any_segment (at (pos 2) (pos 0)) (Net.add_segment (at (pos 4) (pos 0)) (line ∷ []))
    ≡ (at (pos 4) (pos 0) == at (pos 2) (pos 0) || any_segment (at (pos 2) (pos 0)) (line ∷ []))
any_segment-add_segment_example =
    any_segment-add_segment (at (pos 4) (pos 0)) (at (pos 2) (pos 0)) (line ∷ [])

-- The segment in the middle joins the two beside it.
joined :
    length (
      Net.add_segment
        (at (pos 0) (pos 0))
        (Net.add_segment (at (pos 1) (pos 0)) (Net.add_segment (at (negsuc 0) (pos 0)) [])))
    ≡ 1
unfolding Net.add_segment is_adj new coord_beq wrap_i32 ◌-ℤ◌ ◌+ℤ◌
joined = refl
