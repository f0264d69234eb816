-- ===== src/Grid.antt =====
-- Power and data grids of the client's world (client/src/world/power_grid.rs). A `HashSet` is a list
-- without repetitions in the arbitrary order of its iteration; what an operation changes is in its
-- result. The assertions of debug builds are left out.
pub mod Net
pub mod Search
pub mod Joins
pub mod Laws
use blockscape.Direction.{Direction, cardinal_iterator}
use blockscape.Coord.{Coord, coord_beq, coord_eq, move_in_dir}
use blockscape.Base.{
  ℕ, zero, suc, ◌+◌, Bool, true, false, not, ◌&&◌, ◌||◌, Option, none, some, List, [], ◌∷◌, ◌++◌,
  map, length, contains, retain_ne, nat_eq, ◌==◌, if◌then◌else◌,
}
use blockscape.Base.Int.{ℤ, pos, ◌+ℤ◌, ◌-ℤ◌}
use blockscape.Base.Words.{wrap_i32}

-- What the grid asks of a structure.
pub record Structure : Type 0 where
  pub id : ℕ
  pub location : Coord
  pub xy_len : ℕ × ℕ

-- A structure and its priority.
pub record StructureNode : Type 0 where
  pub structure : Structure
  pub priority : ℕ

-- `impl PartialEq`: the priority does not matter.
abbrev pub node_beq : StructureNode → StructureNode → Bool
node_beq a b =
    a.structure.id == b.structure.id && coord_beq a.structure.location b.structure.location

abbrev pub has_node : StructureNode → List StructureNode → Bool
has_node node [] = false
has_node node (other ∷ nodes) = node_beq other node || has_node node nodes

abbrev pub insert_node : StructureNode → List StructureNode → List StructureNode
insert_node node nodes = if has_node node nodes then nodes else nodes ++ node ∷ []

abbrev pub drop_node : StructureNode → List StructureNode → List StructureNode
drop_node node [] = []
drop_node node (other ∷ nodes) =
    let rest = drop_node node nodes in if node_beq other node then rest else other ∷ rest

-- `HashSet::insert` and `difference` on the segments.
abbrev pub insert_segment : Coord → List Coord → List Coord
insert_segment segment segments =
    if contains segments segment then segments else segments ++ segment ∷ []

abbrev pub difference : List Coord → List Coord → List Coord
difference [] removed = []
difference (s ∷ segments) removed =
    let rest = difference segments removed in if contains removed s then rest else s ∷ rest

pub record Grid : Type 0 where
  pub segments : List Coord
  pub buildings : List StructureNode

unfoldable pub new : Coord → Grid
new segment = record { segments = segment ∷ []; buildings = [] }

unfoldable pub add_segment : Coord → Grid → Grid × Bool
add_segment segment g =
    (record g { segments = insert_segment segment g.segments }, not (contains g.segments segment))

unfoldable pub add_building : Structure → ℕ → Grid → Grid × Bool
add_building structure priority g =
    let node : StructureNode = record { structure = structure; priority = priority } in
    (record g { buildings = insert_node node g.buildings }, not (has_node node g.buildings))

unfoldable pub remove_building : Structure → Grid → Grid × Bool
remove_building structure g =
    let node : StructureNode = record { structure = structure; priority = 0 } in
    (record g { buildings = drop_node node g.buildings }, has_node node g.buildings)

abbrev insert_all : List Coord → List Coord → List Coord
insert_all [] segments = segments
insert_all (s ∷ rest) segments = insert_all rest (insert_segment s segments)

abbrev insert_nodes : List StructureNode → List StructureNode → List StructureNode
insert_nodes [] nodes = nodes
insert_nodes (b ∷ rest) nodes = insert_nodes rest (insert_node b nodes)

unfoldable pub merge : Grid → Grid → Grid
merge g other = record {
  segments = insert_all other.segments g.segments;
  buildings = insert_nodes other.buildings g.buildings;
}

unfoldable pub contains_segment : Coord → Grid → Bool
contains_segment point g = contains g.segments point

unfoldable pub is_connected : Structure → Grid → Bool
is_connected structure g = has_node (record { structure = structure; priority = 0 }) g.buildings

unfoldable pub is_grid : ℤ → ℤ → Grid → Bool
is_grid x y g = contains g.segments (record { x = wrap_i32 x; y = wrap_i32 y })

unfoldable pub is_adj : Coord → Grid → Bool
unfolding is_grid
is_adj point g =
    contains g.segments point
    || is_grid (point.x -ℤ pos 1) point.y g
    || is_grid (point.x +ℤ pos 1) point.y g
    || is_grid point.x (point.y -ℤ pos 1) g
    || is_grid point.x (point.y +ℤ pos 1) g

-- `for d in 0..n`
abbrev any_below : ℕ → (ℕ → Bool) → Bool
any_below zero p = false
any_below (suc n) p = any_below n p || p n

unfoldable pub is_structure_adj : Structure → Grid → Bool
unfolding is_grid
is_structure_adj structure g =
    let base = structure.location in
    let (xl, yl) = structure.xy_len in
    any_below xl (λ dx.
      is_grid (base.x +ℤ pos dx) (base.y -ℤ pos 1) g
      || is_grid (base.x +ℤ pos dx) (base.y +ℤ pos yl) g)
    || any_below yl (λ dy.
      is_grid (base.x -ℤ pos 1) (base.y +ℤ pos dy) g
      || is_grid (base.x +ℤ pos xl) (base.y +ℤ pos dy) g)

-- The adjacent segments go from the rest to the queue.
abbrev pub expand : Coord → List Direction → List Coord → List Coord → List Coord × List Coord
expand s [] segments queue = (segments, queue)
expand s (dir ∷ dirs) segments queue =
    let next = move_in_dir s dir 1 in
    if contains segments next
    then expand s dirs (retain_ne next segments) (queue ++ next ∷ [])
    else expand s dirs segments queue

-- One grid from the queue; with it come the segments that it does not reach.
unfoldable pub explore : ℕ → List Coord → List Coord → List Coord → Option (List Coord × List Coord)
explore fuel segments [] found = some (found, segments)
explore zero segments (s ∷ queue) found = none
explore (suc fuel) segments (s ∷ queue) found =
    let (segments', queue') = expand s cardinal_iterator segments queue in
    explore fuel segments' queue' (insert_segment s found)

unfoldable pub split : ℕ → List Coord → Option (List (List Coord))
split fuel [] = some []
split zero (s ∷ segments) = none
split (suc fuel) (s ∷ segments) =
    elim (explore (suc (length segments)) (retain_ne s segments) (s ∷ []) []) [
      | none ↦ none
      | some (found, rest) ↦ elim (split fuel rest) [
        | none ↦ none
        | some grids ↦ some (found ∷ grids)
      ]
    ]

abbrev pub of_segments : List Coord → Grid
of_segments found = record { segments = found; buildings = [] }

abbrev pub with_buildings : List StructureNode → Grid → Grid
with_buildings [] g = g
with_buildings (b ∷ nodes) g = with_buildings nodes (add_building b.structure b.priority g).0

-- Every part becomes a grid with all the buildings.
abbrev pub rebuild : List StructureNode → Option (List (List Coord)) → Option (List Grid)
rebuild nodes none = none
rebuild nodes (some parts) = some (map (λ found. with_buildings nodes (of_segments found)) parts)

-- `Grid::remove_segments`
unfoldable pub remove_segments : List Coord → Grid → Option (List Grid)
remove_segments removed g =
    let segments = difference g.segments removed in
    rebuild g.buildings (split (length segments) segments)
