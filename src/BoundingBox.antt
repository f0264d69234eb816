-- ===== src/BoundingBox.antt =====
-- Areas of the plane (core/src/primitives/coord.rs): `BoundingBox`, whose borders belong to it.
pub mod Laws
use blockscape.Base.{
  ℕ, ◌+◌, ◌*◌, ◌%◌, ◌^◌, Bool, not, ◌&&◌, ◌||◌, Option, none, some, if◌then◌else◌,
}
use blockscape.Base.Int.{ℤ, ◌-ℤ◌, leb_ℤ}
use blockscape.Base.Words.{wrap_i32, as_u32}
use blockscape.Coord.{Coord}

-- The bottom left and the top right corner.
pub record BoundingBox : Type 0 where
  pub lo : Coord
  pub hi : Coord

abbrev pub min_ℤ : ℤ → ℤ → ℤ
min_ℤ a b = if leb_ℤ a b then a else b

abbrev pub max_ℤ : ℤ → ℤ → ℤ
max_ℤ a b = if leb_ℤ a b then b else a

unfoldable pub new : Coord → Coord → BoundingBox
new a b = record {
  lo = record { x = min_ℤ a.x b.x; y = min_ℤ a.y b.y };
  hi = record { x = max_ℤ a.x b.x; y = max_ℤ a.y b.y };
}

unfoldable pub top_left : BoundingBox → Coord
top_left s = record { x = s.lo.x; y = s.hi.y }

unfoldable pub top_right : BoundingBox → Coord
top_right s = s.hi

unfoldable pub bottom_left : BoundingBox → Coord
bottom_left s = s.lo

unfoldable pub bottom_right : BoundingBox → Coord
bottom_right s = record { x = s.hi.x; y = s.lo.y }

-- `(hi - lo) as u32 + 1`
unfoldable pub width : BoundingBox → ℕ
width s = (as_u32 (wrap_i32 (s.hi.x -ℤ s.lo.x)) + 1) % 2 ^ 32

unfoldable pub height : BoundingBox → ℕ
height s = (as_u32 (wrap_i32 (s.hi.y -ℤ s.lo.y)) + 1) % 2 ^ 32

unfoldable pub area : BoundingBox → ℕ
unfolding width height
area s = width s * height s

unfoldable pub contains : BoundingBox → Coord → Bool
contains s p = leb_ℤ s.lo.x p.x && leb_ℤ p.x s.hi.x && leb_ℤ s.lo.y p.y && leb_ℤ p.y s.hi.y

unfoldable pub contains_box : BoundingBox → BoundingBox → Bool
contains_box s other = contains s other.lo && contains s other.hi

unfoldable pub is_contained_by : BoundingBox → BoundingBox → Bool
unfolding contains_box
is_contained_by s other = contains_box other s

-- A corner of either box lies in the other.
unfoldable pub overlaps : BoundingBox → BoundingBox → Bool
unfolding top_left top_right bottom_left bottom_right
overlaps s other =
    contains s (top_left other)
    || contains s (top_right other)
    || contains s (bottom_left other)
    || contains s (bottom_right other)
    || contains other (top_left s)
    || contains other (top_right s)
    || contains other (bottom_left s)
    || contains other (bottom_right s)

-- The box from the greater of the lower ends to the lesser of the upper ones.
abbrev pub meet : BoundingBox → BoundingBox → BoundingBox
meet s other = record {
  lo = record { x = max_ℤ s.lo.x other.lo.x; y = max_ℤ s.lo.y other.lo.y };
  hi = record { x = min_ℤ s.hi.x other.hi.x; y = min_ℤ s.hi.y other.hi.y };
}

unfoldable pub intersect : BoundingBox → BoundingBox → Option BoundingBox
unfolding overlaps
intersect s other = if not (overlaps s other) then none else some (meet s other)
