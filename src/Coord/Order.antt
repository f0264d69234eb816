-- ===== src/Coord/Order.antt =====
-- The order of coordinates.
use Prim.Native.Nat.{Ordering}
use blockscape.Base.{◌≡◌, ◌↔◌, arith}
use blockscape.Coord.{Coord, cmp}

abbrev pub swap : Ordering → Ordering
swap Ordering.lt = Ordering.gt
swap Ordering.eq = Ordering.eq
swap Ordering.gt = Ordering.lt

-- `cmp` is a total order: equal only at equal coordinates, opposite for swapped arguments, and
-- transitive.
pub cmp_total_order :
    (a b c : Coord)
    → ((cmp a b ≡ Ordering.eq) ↔ (a ≡ b))
      × (cmp b a ≡ swap (cmp a b))
      × (cmp a b ≡ Ordering.lt → cmp b c ≡ Ordering.lt → cmp a c ≡ Ordering.lt)
unfolding cmp
cmp_total_order a b c =
    ((λ h. ground arith, λ e. rw e (ground arith)), ground arith, λ h g. ground arith)
