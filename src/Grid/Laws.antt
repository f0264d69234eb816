-- ===== src/Grid/Laws.antt =====
-- What the operations of the grids do (client/src/world/power_grid.rs).
use blockscape.Grid.{
  Grid, add_building, difference, split, remove_segments, of_segments, with_buildings, rebuild,
  has_node, insert_node, node_beq, StructureNode, contains_segment,
}
use blockscape.Grid.Search.{any_has, split_lem, contains-difference}
use blockscape.Coord.{Coord, coord_beq_iff, coord_eq}
use blockscape.Base.{
  ◌≡◌, refl, ap, Bool, true, false, not, ◌&&◌, ◌||◌, some, List, [], ◌∷◌, ◌++◌, map, length,
  contains, arith, ◌∙◌,
}

-- Nodes that are equal are in the same sets.
has_same_node :
    (x b : StructureNode) (nodes : List StructureNode)
    → node_beq x b ≡ true
    → has_node x nodes ≡ has_node b nodes
has_same_node x b [] same = refl
has_same_node x b (y ∷ nodes) same = ground (
  arith,
  has_same_node x b nodes same,
  same,
  coord_beq_iff x.structure.location b.structure.location,
  coord_beq_iff y.structure.location b.structure.location,
  coord_beq_iff y.structure.location x.structure.location,
)

has_node-append :
    (b : StructureNode) (xs ys : List StructureNode)
    → has_node b (xs ++ ys) ≡ (has_node b xs || has_node b ys)
has_node-append b [] ys = refl
has_node-append b (x ∷ xs) ys = ground (arith, has_node-append b xs ys)

has_node-insert_node :
    (b x : StructureNode) (nodes : List StructureNode)
    → has_node b (insert_node x nodes) ≡ (node_beq x b || has_node b nodes)
has_node-insert_node b x nodes =
    ground (arith, has_node-append b nodes (x ∷ []), has_same_node x b nodes)

with_buildings-segments :
    (nodes : List StructureNode) (g : Grid) → (with_buildings nodes g).segments ≡ g.segments
unfolding add_building
with_buildings-segments [] g = refl
with_buildings-segments (b ∷ nodes) g =
    with_buildings-segments nodes (add_building b.structure b.priority g).0

has_node-with_buildings :
    (b : StructureNode) (nodes : List StructureNode) (g : Grid)
    → has_node b (with_buildings nodes g).buildings ≡ (has_node b nodes || has_node b g.buildings)
unfolding add_building
has_node-with_buildings b [] g = refl
has_node-with_buildings b (x ∷ nodes) g =
    has_node-with_buildings b nodes (add_building x.structure x.priority g).0
    ∙ ground (arith, has_node-insert_node b x g.buildings)

-- Some grid has the coordinate.
abbrev pub any_segment : Coord → List Grid → Bool
any_segment p [] = false
any_segment p (g ∷ grids) = contains_segment p g || any_segment p grids

-- Every grid has the node.
abbrev pub all_have : StructureNode → List Grid → Bool
all_have b [] = true
all_have b (g ∷ grids) = has_node b g.buildings && all_have b grids

abbrev rebuilt : List StructureNode → List (List Coord) → List Grid
rebuilt nodes grids = map (λ found. with_buildings nodes (of_segments found)) grids

any_segment-rebuilt :
    (p : Coord) (nodes : List StructureNode) (grids : List (List Coord))
    → any_segment p (rebuilt nodes grids) ≡ any_has p grids
unfolding contains_segment
any_segment-rebuilt p nodes [] = refl
any_segment-rebuilt p nodes (found ∷ grids) =
    rw (with_buildings-segments nodes (of_segments found), any_segment-rebuilt p nodes grids) refl

all_have-rebuilt :
    (b : StructureNode) (nodes : List StructureNode) (grids : List (List Coord))
    → has_node b nodes ≡ true
    → all_have b (rebuilt nodes grids) ≡ true
all_have-rebuilt b nodes [] h = refl
all_have-rebuilt b nodes (found ∷ grids) h = ground (
  arith,
  h,
  has_node-with_buildings b nodes (of_segments found),
  all_have-rebuilt b nodes grids h,
)

remove_segments-rebuilt :
    (removed : List Coord) (g : Grid) (parts : List (List Coord))
    → split (length (difference g.segments removed)) (difference g.segments removed) ≡ some parts
    → remove_segments removed g ≡ some (rebuilt g.buildings parts)
unfolding remove_segments
remove_segments-rebuilt removed g parts same = ap (rebuild g.buildings) same

-- Segments are removed without running out of fuel: the grids that are left have together the
-- segments that were not removed, and each of them has every building.
pub remove_segments_lem :
    (removed : List Coord) (g : Grid)
    → (grids : List Grid) × (remove_segments removed g ≡ some grids)
      × ((p : Coord) → any_segment p grids ≡ (contains_segment p g && not (contains removed p)))
      × ((b : StructureNode) → has_node b g.buildings ≡ true → all_have b grids ≡ true)
unfolding contains_segment
remove_segments_lem removed g =
    let kept = difference g.segments removed in
    let (parts, same, has) = split_lem (length kept) kept omega arith in
    (
      rebuilt g.buildings parts,
      remove_segments-rebuilt removed g parts same,
      λ p.
          any_segment-rebuilt p g.buildings parts
          ∙ has p
          ∙ contains-difference p g.segments removed,
      λ b h. all_have-rebuilt b g.buildings parts h,
    )
