-- ===== src/Tests/Areas.antt =====
-- Examples of coordinates and areas.
use blockscape.Coord.{Coord}
use blockscape.BoundingBox.{BoundingBox}
use blockscape.BoundingBox.Laws.{IsProper}
use blockscape.Base.{arith}
use blockscape.Base.Int.{ℤ, pos, negsuc}

abbrev at : ℤ → ℤ → Coord
at x y = record { x = x; y = y }

-- A wide box and a tall one, which cross.
abbrev wide : BoundingBox
wide = record { lo = at (negsuc 4) (pos 0); hi = at (pos 5) (pos 1) }

abbrev tall : BoundingBox
tall = record { lo = at (pos 0) (negsuc 4); hi = at (pos 1) (pos 5) }

abbrev small : BoundingBox
small = record { lo = at (pos 1) (pos 0); hi = at (pos 2) (pos 1) }

wide-IsProper : IsProper wide
wide-IsProper = record { across = omega arith; upright = omega arith }

tall-IsProper : IsProper tall
tall-IsProper = record { across = omega arith; upright = omega arith }

small-IsProper : IsProper small
small-IsProper = record { across = omega arith; upright = omega arith }
