-- ===== src/Grid/Joins.antt =====
-- A segment that is added to a network of grids (client/src/world/power_grid.rs).
use blockscape.Grid
use blockscape.Grid.{Grid, insert_all, insert_segment, merge, new, is_adj, contains_segment}
use blockscape.Grid.Net
use blockscape.Grid.Net.{GridNet, span}
use blockscape.Grid.Search.{contains-insert_segment}
use blockscape.Grid.Laws.{any_segment}
use blockscape.Coord.{Coord, coord_beq_iff, coord_eq}
use blockscape.Base.{
  ◌≡◌, refl, ◌∙◌, inl, inr, Bool, Bool-cases, true, false, ◌||◌, Option, none, some, List, [], ◌∷◌,
  ◌++◌, contains, ◌==◌, arith,
}

contains-insert_all :
    (p : Coord) (xs segments : List Coord)
    → contains (insert_all xs segments) p ≡ (contains segments p || contains xs p)
contains-insert_all p [] segments = ground arith
contains-insert_all p (x ∷ xs) segments =
    contains-insert_all p xs (insert_segment x segments)
    ∙ ground (arith, contains-insert_segment p x segments)

any_segment-append :
    (p : Coord) (xs ys : GridNet)
    → any_segment p (xs ++ ys) ≡ (any_segment p xs || any_segment p ys)
any_segment-append p [] ys = refl
any_segment-append p (x ∷ xs) ys = ground (arith, any_segment-append p xs ys)

abbrev held : Coord → Option Grid → Bool
held p none = false
held p (some m) = contains_segment p m

-- The grid that spans the others, with one more.
abbrev widened : Coord → Option Grid → Grid → Grid
widened s master g = elim master [ some m ↦ merge m g | none ↦ (Grid.add_segment s g).0 ]

widened_holds :
    (s p : Coord) (master : Option Grid) (g : Grid)
    → (s == p || contains_segment p (widened s master g))
      ≡ (s == p || held p master || contains_segment p g)
unfolding merge Grid.add_segment contains_segment
widened_holds s p none g = ground (arith, contains-insert_segment p s g.segments)
widened_holds s p (some m) g = ground (arith, contains-insert_all p g.segments m.segments)

span_holds :
    (s p : Coord) (master : Option Grid) (net : GridNet)
    → let r = span s master net in
      (s == p || held p r.1 || any_segment p r.0) ≡ (s == p || held p master || any_segment p net)
span_holds s p master [] = refl
span_holds s p master (g ∷ net) = elim (Bool-cases (is_adj s g)) [
  | inl h ↦
      rw h (
        span_holds s p (some (widened s master g)) net ∙ ground (arith, widened_holds s p master g))
  | inr h ↦ rw h ground (arith, span_holds s p master net)
]

-- A grid that spans the others has the segment.
abbrev HasOwn : Coord → Option Grid → Type 0
HasOwn s none = Unit {0}
HasOwn s (some m) = contains_segment s m ≡ true

widened-HasOwn :
    (s : Coord) (master : Option Grid) (g : Grid)
    → HasOwn s master
    → contains_segment s (widened s master g) ≡ true
unfolding merge Grid.add_segment contains_segment
widened-HasOwn s none g own =
    ground (arith, contains-insert_segment s s g.segments, coord_beq_iff s s)
widened-HasOwn s (some m) g own = ground (arith, contains-insert_all s g.segments m.segments, own)

span-HasOwn :
    (s : Coord) (master : Option Grid) (net : GridNet)
    → HasOwn s master
    → HasOwn s (span s master net).1
span-HasOwn s master [] own = own
span-HasOwn s master (g ∷ net) own = elim (Bool-cases (is_adj s g)) [
  | inl h ↦ rw h (span-HasOwn s (some (widened s master g)) net (widened-HasOwn s master g own))
  | inr h ↦ rw h (span-HasOwn s master net own)
]

last_holds :
    (s p : Coord) (m : Option Grid)
    → HasOwn s m
    → contains_segment p (elim m [ some g ↦ g | none ↦ new s ]) ≡ (s == p || held p m)
unfolding new contains_segment
last_holds s p none own = ground arith
last_holds s p (some g) own = ground (arith, own, coord_beq_iff s p)

-- After a segment is added, the network has this segment and those that it had, and no other.
pub any_segment-add_segment :
    (s p : Coord) (net : GridNet)
    → any_segment p (Net.add_segment s net) ≡ (s == p || any_segment p net)
unfolding Net.add_segment
any_segment-add_segment s p net =
    let r = span s none net in
    any_segment-append p r.0 (elim r.1 [ some m ↦ m | none ↦ new s ] ∷ [])
    ∙ ground (arith, last_holds s p r.1 (span-HasOwn s none net tt), span_holds s p none net)
