-- ===== src/Grid/Search.antt =====
-- The search for connected segments (client/src/world/power_grid.rs).
use blockscape.Grid.{insert_segment, difference, expand, explore, split}
use blockscape.Direction.{Direction, cardinal_iterator}
use blockscape.Coord.{Coord, coord_beq_iff, coord_eq, move_in_dir}
use blockscape.Base.{
  ℕ, zero, suc, ◌+◌, ◌≤◌, ◌≡◌, refl, Bool, true, false, not, ◌&&◌, ◌||◌, Option, some, List, [],
  ◌∷◌, ◌++◌, length, length-append, contains, contains-append, contains-retain_ne, retain_ne, ◌==◌,
  arith, ◌∙◌, inl, inr, Bool-cases,
}

pub contains-insert_segment :
    (p s : Coord) (xs : List Coord) → contains (insert_segment s xs) p ≡ ((s == p) || contains xs p)
contains-insert_segment p s xs = ground (arith, contains-append xs (s ∷ []) p, coord_beq_iff s p)

length-retain_ne : (s : Coord) (xs : List Coord) → length (retain_ne s xs) ≤ length xs
length-retain_ne s [] = omega arith
length-retain_ne s (x ∷ xs) = ground (arith, length-retain_ne s xs)

length-retain_present :
    (s : Coord) (xs : List Coord) → contains xs s ≡ true → suc (length (retain_ne s xs)) ≤ length xs
length-retain_present s [] h = ground arith
length-retain_present s (x ∷ xs) h =
    ground (arith, length-retain_ne s xs, length-retain_present s xs)

pub contains-difference :
    (p : Coord) (xs ys : List Coord)
    → contains (difference xs ys) p ≡ (contains xs p && not (contains ys p))
contains-difference p [] ys = refl
contains-difference p (x ∷ xs) ys = ground (arith, contains-difference p xs ys, coord_beq_iff x p)

-- What the queue and the rest hold together.
expand_keeps :
    (s p : Coord) (dirs : List Direction) (segments queue : List Coord)
    → let r = expand s dirs segments queue in
      (contains r.1 p || contains r.0 p) ≡ (contains queue p || contains segments p)
expand_keeps s p [] segments queue = refl
expand_keeps s p (dir ∷ dirs) segments queue =
    let next = move_in_dir s dir 1 in
    elim (Bool-cases (contains segments next)) [
      | inl h ↦ rw h (
          expand_keeps s p dirs (retain_ne next segments) (queue ++ next ∷ [])
          ∙ ground (
            arith,
            contains-append queue (next ∷ []) p,
            contains-retain_ne next p segments,
            coord_beq_iff next p,
            h,
          ))
      | inr h ↦ rw h (expand_keeps s p dirs segments queue)
    ]

expand_shrinks :
    (s : Coord) (dirs : List Direction) (segments queue : List Coord)
    → let r = expand s dirs segments queue in
      (length r.1 + length r.0 ≤ length queue + length segments) × (length r.0 ≤ length segments)
expand_shrinks s [] segments queue = (omega arith, omega arith)
expand_shrinks s (dir ∷ dirs) segments queue =
    let next = move_in_dir s dir 1 in
    elim (Bool-cases (contains segments next)) [
      | inl h ↦ rw h ground (
        arith,
        expand_shrinks s dirs (retain_ne next segments) (queue ++ next ∷ []),
        length-append queue (next ∷ []),
        length-retain_present next segments h,
      )
      | inr h ↦ rw h (expand_shrinks s dirs segments queue)
    ]

-- A search with enough fuel ends; what it finds and what it leaves is what there was.
abbrev Explored : Option (List Coord × List Coord) → List Coord → List Coord → List Coord → Type 0
Explored o segments queue found =
    (r : List Coord × List Coord) × (o ≡ some r)
    × (length r.1 ≤ length segments)
    × ((p : Coord)
        → (contains r.0 p || contains r.1 p)
          ≡ (contains found p || contains queue p || contains segments p))

explore-Explored :
    (fuel : ℕ) (segments queue found : List Coord)
    → length queue + length segments ≤ fuel
    → Explored (explore fuel segments queue found) segments queue found
unfolding explore
explore-Explored fuel segments [] found h =
    ((found, segments), refl, ground arith, λ p. ground arith)
explore-Explored zero segments (s ∷ queue) found h = ground arith
explore-Explored (suc fuel) segments (s ∷ queue) found h =
    let e = expand s cardinal_iterator segments queue in
    let shrinks = expand_shrinks s cardinal_iterator segments queue in
    let (r, same, bound, keeps) =
      explore-Explored fuel e.0 e.1 (insert_segment s found) ground (arith, shrinks, h) in
    (
      r,
      same,
      ground (arith, bound, shrinks),
      λ p.
          keeps p
          ∙ ground (
            arith,
            contains-insert_segment p s found,
            expand_keeps s p cardinal_iterator segments queue,
          ),
    )

-- Some of the sets has the coordinate.
abbrev pub any_has : Coord → List (List Coord) → Bool
any_has p [] = false
any_has p (found ∷ grids) = contains found p || any_has p grids

split_step :
    (fuel : ℕ) (s : Coord) (segments : List Coord) (r : List Coord × List Coord)
    (grids : List (List Coord))
    → explore (suc (length segments)) (retain_ne s segments) (s ∷ []) [] ≡ some r
    → split fuel r.1 ≡ some grids
    → split (suc fuel) (s ∷ segments) ≡ some (r.0 ∷ grids)
unfolding split
split_step fuel s segments r grids explored rest = rw (split, explored, rest) refl

pub split_lem :
    (fuel : ℕ) (segments : List Coord)
    → length segments ≤ fuel
    → (grids : List (List Coord)) × (split fuel segments ≡ some grids)
      × ((p : Coord) → any_has p grids ≡ contains segments p)
unfolding split
split_lem fuel [] h = ([], refl, λ p. refl)
split_lem zero (s ∷ segments) h = ground arith
split_lem (suc fuel) (s ∷ segments) h =
    let left = retain_ne s segments in
    let shorter = length-retain_ne s segments in
    let (r, same, bound, keeps) =
      explore-Explored (suc (length segments)) left (s ∷ []) [] ground (arith, shorter) in
    let (grids, split_same, has) = split_lem fuel r.1 ground (arith, bound, shorter, h) in
    (
      r.0 ∷ grids,
      split_step fuel s segments r grids same split_same,
      λ p. ground (arith, has p, keeps p, contains-retain_ne s p segments, coord_beq_iff s p),
    )
