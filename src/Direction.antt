-- ===== src/Direction.antt =====
-- The eight directions (core/src/primitives/direction.rs).
use blockscape.Base.{Bool, true, false, List, [], ◌∷◌}
use blockscape.Base.Int.{ℤ, pos, negsuc}

pub data Direction : Type 0 where
  n ne e se s sw w nw : Direction

abbrev pub iterator : List Direction
iterator = n ∷ ne ∷ e ∷ se ∷ s ∷ sw ∷ w ∷ nw ∷ []

abbrev pub cardinal_iterator : List Direction
cardinal_iterator = n ∷ e ∷ s ∷ w ∷ []

unfoldable pub dx_dy : Direction → ℤ × ℤ
dx_dy n = (pos 0, pos 1)
dx_dy ne = (pos 1, pos 1)
dx_dy e = (pos 1, pos 0)
dx_dy se = (pos 1, negsuc 0)
dx_dy s = (pos 0, negsuc 0)
dx_dy sw = (negsuc 0, negsuc 0)
dx_dy w = (negsuc 0, pos 0)
dx_dy nw = (negsuc 0, pos 1)

unfoldable pub is_cardinal : Direction → Bool
is_cardinal n = true
is_cardinal e = true
is_cardinal s = true
is_cardinal w = true
is_cardinal _ = false
