-- ===== src/Grid/Net.antt =====
-- A network of independent grids (`GridNet` of client/src/world/power_grid.rs).
use blockscape.Grid
use blockscape.Grid.{Grid, new, Structure, is_adj, is_structure_adj, merge}
use blockscape.Coord.{Coord}
use blockscape.Base.{
  ℕ, Bool, true, false, ◌||◌, Option, none, some, List, [], ◌∷◌, ◌++◌, if◌then◌else◌,
}

abbrev pub GridNet : Type 0
GridNet = List Grid

-- `GridNet::add_segment`: the grids that are not adjacent, and the one that spans the others.
abbrev pub span : Coord → Option Grid → GridNet → GridNet × Option Grid
span segment master [] = ([], master)
span segment master (g ∷ net) =
    if is_adj segment g
    then span segment
        (some (elim master [ some m ↦ merge m g | none ↦ (Grid.add_segment segment g).0 ])) net
    else let (rest, m) = span segment master net in (g ∷ rest, m)

unfoldable pub add_segment : Coord → GridNet → GridNet
add_segment segment net =
    let (rest, master) = span segment none net in
    rest ++ elim master [ some m ↦ m | none ↦ new segment ] ∷ []

-- Every grid is taken from the front, and what is left of it is put at the back.
unfoldable pub remove_segments : List Coord → GridNet → Option GridNet
remove_segments removed [] = some []
remove_segments removed (g ∷ net) = elim (Grid.remove_segments removed g) [
  | none ↦ none
  | some grids ↦ elim (remove_segments removed net) [
    | none ↦ none
    | some rest ↦ some (grids ++ rest)
  ]
]

unfoldable pub add_building : Structure → ℕ → GridNet → GridNet × Bool
add_building structure priority [] = ([], false)
add_building structure priority (g ∷ net) =
    let (rest, added) = add_building structure priority net in
    if is_structure_adj structure g
    then ((Grid.add_building structure priority g).0 ∷ rest, true)
    else (g ∷ rest, added)

unfoldable pub remove_building : Structure → GridNet → GridNet × Bool
remove_building structure [] = ([], false)
remove_building structure (g ∷ net) =
    let (g', here) = Grid.remove_building structure g in
    let (rest, removed) = remove_building structure net in (g' ∷ rest, here || removed)
