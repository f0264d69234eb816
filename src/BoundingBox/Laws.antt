-- ===== src/BoundingBox/Laws.antt =====
-- Boxes as sets of points.
use blockscape.Base.{
  ◌≡◌, ◌↔◌, Bool, true, false, not, none, some, if◌then◌else◌, Bool-cases, inl, inr, arith,
}
use blockscape.Base.Int.{ℤ, pos, ◌+ℤ◌, ◌-ℤ◌, ◌≤ℤ◌, int_laws}
use blockscape.Base.Words.{as_u32, IsI32, wrap_i32_self}
use blockscape.Coord.{Coord}
use blockscape.BoundingBox.{
  BoundingBox, new, width, contains, contains_box, overlaps, meet, intersect, max_ℤ, min_ℤ,
  top_left, top_right, bottom_left, bottom_right,
}

-- The corners are in order.
pub record IsProper (s : BoundingBox) : Type 0 where
  pub across : s.lo.x ≤ℤ s.hi.x
  pub upright : s.lo.y ≤ℤ s.hi.y

-- The box of two points is proper and has both.
pub contains-new :
    (a b : Coord)
    → IsProper (new a b) × (contains (new a b) a ≡ true) × (contains (new a b) b ≡ true)
unfolding new contains
contains-new a b =
    (record { across = ground arith; upright = ground arith }, ground arith, ground arith)

-- A point of a box, by orders that the arithmetic reads.
abbrev pub Inside : BoundingBox → Coord → Type 0
Inside s p = (s.lo.x ≤ℤ p.x) × (p.x ≤ℤ s.hi.x) × (s.lo.y ≤ℤ p.y) × (p.y ≤ℤ s.hi.y)

pub contains_iff : (s : BoundingBox) (p : Coord) → (contains s p ≡ true) ↔ Inside s p
unfolding contains
contains_iff s p = (λ h. ground arith, λ h. ground arith)

contains_not : (s : BoundingBox) (p : Coord) → ¬ Inside s p → contains s p ≡ false
contains_not s p h = elim (Bool-cases (contains s p)) [
  | inl e ↦ absurd (h ((contains_iff s p).0 e))
  | inr e ↦ e
]

-- A proper box lies in another exactly when all its points do.
pub contains_box_iff :
    (s t : BoundingBox)
    → IsProper t
    → (contains_box s t ≡ true) ↔ ((p : Coord) → contains t p ≡ true → contains s p ≡ true)
unfolding contains_box
contains_box_iff s t v = (
  λ h p g.
      let a : contains s t.lo ≡ true = ground arith in
      let b : contains s t.hi ≡ true = ground arith in
      (contains_iff s p).1 (
        omega
          (arith, (contains_iff s t.lo).0 a, (contains_iff s t.hi).0 b, (contains_iff t p).0 g)),
  λ h. ground (
    arith,
    h t.lo ((contains_iff t t.lo).1 (omega arith)),
    h t.hi ((contains_iff t t.hi).1 (omega arith)),
  ),
)

max_ℤ_bound : (a b p : ℤ) → (max_ℤ a b ≤ℤ p) ↔ ((a ≤ℤ p) × (b ≤ℤ p))
max_ℤ_bound a b p = (λ h. ground arith, λ h. ground arith)

min_ℤ_bound : (a b p : ℤ) → (p ≤ℤ min_ℤ a b) ↔ ((p ≤ℤ a) × (p ≤ℤ b))
min_ℤ_bound a b p = (λ h. ground arith, λ h. ground arith)

Inside-meet : (s t : BoundingBox) (p : Coord) → Inside (meet s t) p ↔ (Inside s p × Inside t p)
Inside-meet s t p = (
  λ h.
      let (xl, xh, yl, yh) = h in
      let a = (max_ℤ_bound s.lo.x t.lo.x p.x).0 xl in
      let b = (min_ℤ_bound s.hi.x t.hi.x p.x).0 xh in
      let c = (max_ℤ_bound s.lo.y t.lo.y p.y).0 yl in
      let d = (min_ℤ_bound s.hi.y t.hi.y p.y).0 yh in ((a.0, b.0, c.0, d.0), (a.1, b.1, c.1, d.1)),
  λ h.
      let (a, b) = h in
      (
        (max_ℤ_bound s.lo.x t.lo.x p.x).1 (a.0, b.0),
        (min_ℤ_bound s.hi.x t.hi.x p.x).1 (a.1, b.1),
        (max_ℤ_bound s.lo.y t.lo.y p.y).1 (a.2, b.2),
        (min_ℤ_bound s.hi.y t.hi.y p.y).1 (a.3, b.3),
      ),
)

if_not-some : (c : Bool) (m u : BoundingBox) → (if not c then none else some m) ≡ some u → m ≡ u
if_not-some true m u h = cc
if_not-some false m u h = cc

intersect-some : (s t u : BoundingBox) → intersect s t ≡ some u → meet s t ≡ u
unfolding intersect
intersect-some s t u h = if_not-some (overlaps s t) (meet s t) u h

-- The points of an intersection are the points that both boxes have.
pub contains-intersect :
    (s t u : BoundingBox) (p : Coord)
    → intersect s t ≡ some u
    → (contains u p ≡ true) ↔ ((contains s p ≡ true) × (contains t p ≡ true))
contains-intersect s t u p h = rw (← intersect-some s t u h) (
  λ g.
      let (a, b) = (Inside-meet s t p).0 ((contains_iff (meet s t) p).0 g) in
      ((contains_iff s p).1 a, (contains_iff t p).1 b),
  λ g.
      (contains_iff (meet s t) p).1
        ((Inside-meet s t p).1 ((contains_iff s p).0 g.0, (contains_iff t p).0 g.1)),
)

-- Two proper boxes with a point in common have the lower corner of their meet in common.
meet-lo_inside :
    (s t : BoundingBox) (q : Coord)
    → contains s q ≡ true
    → contains t q ≡ true
    → (contains s (meet s t).lo ≡ true) × (contains t (meet s t).lo ≡ true)
meet-lo_inside s t q a b =
    let k = (Inside-meet s t q).1 ((contains_iff s q).0 a, (contains_iff t q).0 b) in
    let (xl, xh, yl, yh) = k in
    let m = (Inside-meet s t (meet s t).lo).1 in
    let both =
      (Inside-meet s t (meet s t).lo).0
        (omega arith, omega (arith, xl, xh), omega arith, omega (arith, yl, yh)) in
    ((contains_iff s (meet s t).lo).1 both.0, (contains_iff t (meet s t).lo).1 both.1)

corners_inside :
    (t : BoundingBox)
    → IsProper t
    → (contains t (top_left t) ≡ true)
      × (contains t (top_right t) ≡ true)
      × (contains t (bottom_left t) ≡ true)
      × (contains t (bottom_right t) ≡ true)
unfolding top_left top_right bottom_left bottom_right
corners_inside t v = (
  (contains_iff t _).1 (omega arith),
  (contains_iff t _).1 (omega arith),
  (contains_iff t _).1 (omega arith),
  (contains_iff t _).1 (omega arith),
)

overlaps_symm : (s t : BoundingBox) → overlaps s t ≡ overlaps t s
unfolding overlaps
overlaps_symm s t = ground arith

overlaps-meet :
    (s t : BoundingBox)
    → IsProper s
    → IsProper t
    → overlaps s t ≡ true
    → (contains s (meet s t).lo ≡ true) × (contains t (meet s t).lo ≡ true)
unfolding overlaps
overlaps-meet s t v w h =
    let k = corners_inside s v in
    let l = corners_inside t w in
    ground (
      arith,
      λ (a : contains s (top_left t) ≡ true). meet-lo_inside s t (top_left t) a l.0,
      λ (a : contains s (top_right t) ≡ true). meet-lo_inside s t (top_right t) a l.1,
      λ (a : contains s (bottom_left t) ≡ true). meet-lo_inside s t (bottom_left t) a l.2,
      λ (a : contains s (bottom_right t) ≡ true). meet-lo_inside s t (bottom_right t) a l.3,
      λ (a : contains t (top_left s) ≡ true). meet-lo_inside s t (top_left s) k.0 a,
      λ (a : contains t (top_right s) ≡ true). meet-lo_inside s t (top_right s) k.1 a,
      λ (a : contains t (bottom_left s) ≡ true). meet-lo_inside s t (bottom_left s) k.2 a,
      λ (a : contains t (bottom_right s) ≡ true). meet-lo_inside s t (bottom_right s) k.3 a,
    )

-- Overlapping is symmetric, and boxes that overlap have a point in common, the lower corner of the
-- box that `intersect` gives.
pub overlaps_sound :
    (s t : BoundingBox)
    → IsProper s
    → IsProper t
    → (overlaps s t ≡ overlaps t s)
      × (overlaps s t ≡ true
          → (contains s (meet s t).lo ≡ true) × (contains t (meet s t).lo ≡ true))
overlaps_sound s t v w = (overlaps_symm s t, overlaps-meet s t v w)

module _ (s t : BoundingBox) (v : IsProper s) (w : IsProper t) (a : s.lo.x +ℤ pos 1 ≤ℤ t.lo.x)
    (b : t.hi.x +ℤ pos 1 ≤ℤ s.hi.x) (c : t.lo.y +ℤ pos 1 ≤ℤ s.lo.y)
    (d : s.hi.y +ℤ pos 1 ≤ℤ t.hi.y) where
  cross_corners : overlaps s t ≡ false
  unfolding overlaps top_left top_right bottom_left bottom_right
  cross_corners = rw (
    contains_not s (top_left t) (λ h. omega int_laws),
    contains_not s (top_right t) (λ h. omega int_laws),
    contains_not s (bottom_left t) (λ h. omega int_laws),
    contains_not s (bottom_right t) (λ h. omega int_laws),
    contains_not t (top_left s) (λ h. omega int_laws),
    contains_not t (top_right s) (λ h. omega int_laws),
    contains_not t (bottom_left s) (λ h. omega int_laws),
    contains_not t (bottom_right s) (λ h. omega int_laws),
  )

  cross_point :
      (contains s (record { x = t.lo.x; y = s.lo.y }) ≡ true)
      × (contains t (record { x = t.lo.x; y = s.lo.y }) ≡ true)
  cross_point = ((contains_iff s _).1 (omega int_laws), (contains_iff t _).1 (omega int_laws))

-- Two bars that cross, one reaching out on the left and the right and the other above and below,
-- have a point in common, and yet `overlaps` says no and `intersect` gives nothing.
pub overlaps_misses_cross :
    (s t : BoundingBox)
    → IsProper s
    → IsProper t
    → s.lo.x +ℤ pos 1 ≤ℤ t.lo.x
    → t.hi.x +ℤ pos 1 ≤ℤ s.hi.x
    → t.lo.y +ℤ pos 1 ≤ℤ s.lo.y
    → s.hi.y +ℤ pos 1 ≤ℤ t.hi.y
    → (overlaps s t ≡ false)
      × (intersect s t ≡ none)
      × (contains s (meet s t).lo ≡ true)
      × (contains t (meet s t).lo ≡ true)
overlaps_misses_cross s t v w a b c d =
    let no = cross_corners s t v w a b c d in
    let q = cross_point s t v w a b c d in
    let both = meet-lo_inside s t (record { x = t.lo.x; y = s.lo.y }) q.0 q.1 in
    (no, unfold intersect in rw no, both.0, both.1)

-- A side of a proper box whose ends differ by less than 2 ^ 31 counts the numbers from one end to
-- the other, both included.
pub width_counts :
    (s : BoundingBox)
    → IsProper s
    → IsI32 (s.hi.x -ℤ s.lo.x)
    → pos (width s) ≡ s.hi.x -ℤ s.lo.x +ℤ pos 1
unfolding width as_u32
width_counts s v h = rw (wrap_i32_self (s.hi.x -ℤ s.lo.x) h) (grind (int_laws))
