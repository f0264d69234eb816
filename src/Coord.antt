-- ===== src/Coord.antt =====
-- Coordinates (core/src/primitives/coord.rs): `Coord`, which is also the identity of a plot. The
-- components are `i32`; sums and differences that leave that range wrap. `dist`, a square root of
-- floats, is not modelled.
pub mod Order
use Prim.Native.Nat.{compare, Ordering}
use blockscape.Base.{
  ℕ, ◌+◌, ◌*◌, ◌≡◌, ◌↔◌, Bool, true, ◌%◌, ◌^◌, ◌&&◌, not, nat_eq, ◌==◌, Eq, if◌then◌else◌, arith,
}
use blockscape.Base.Int.{ℤ, pos, pos_part, neg_part, ◌+ℤ◌, ◌-ℤ◌, ◌*ℤ◌, ltb_ℤ, eqb_ℤ}
use blockscape.Base.Words.{as_usize, wrap_i32}
use blockscape.Direction.{Direction, dx_dy}

pub record Coord : Type 0 where
  pub x : ℤ
  pub y : ℤ

-- `abs_diff!`
unfoldable pub abs_diff : ℤ → ℤ → ℤ
abs_diff a b = if ltb_ℤ b a then wrap_i32 (a -ℤ b) else wrap_i32 (b -ℤ a)

-- The square of an `i32`, which an `i64` holds.
unfoldable pub sq : ℤ → ℕ
sq x = as_usize (x *ℤ x)

unfoldable pub cmp_ℤ : ℤ → ℤ → Ordering
cmp_ℤ a b = compare (pos_part a + neg_part b) (pos_part b + neg_part a)

unfoldable pub cmp : Coord → Coord → Ordering
unfolding cmp_ℤ
cmp a b =
    let d1 = sq a.x + sq a.y in
    let d2 = sq b.x + sq b.y in
    if not (d1 == d2)
    then compare d1 d2
    else if not (eqb_ℤ a.x b.x)
    then cmp_ℤ a.x b.x
    else cmp_ℤ a.y b.y

unfoldable pub sq_dist : Coord → Coord → ℕ
unfolding abs_diff
sq_dist a b =
    let dx = as_usize (abs_diff a.x b.x) in
    let dy = as_usize (abs_diff a.y b.y) in (dx * dx + dy * dy) % 2 ^ 64

unfoldable pub move_in_dir : Coord → Direction → ℕ → Coord
move_in_dir c dir steps =
    let (dx, dy) = dx_dy dir in
    let k = wrap_i32 (pos steps) in
    record { x = wrap_i32 (c.x +ℤ wrap_i32 (dx *ℤ k)); y = wrap_i32 (c.y +ℤ wrap_i32 (dy *ℤ k)) }

-- `#[derive(PartialEq)]`
unfoldable pub coord_beq : Coord → Coord → Bool
coord_beq a b = eqb_ℤ a.x b.x && eqb_ℤ a.y b.y

pub coord_beq_iff : (a b : Coord) → (coord_beq a b ≡ true) ↔ (a ≡ b)
unfolding coord_beq
coord_beq_iff a b = ground arith

instance abbrev pub coord_eq : Eq Coord
coord_eq = record { beq = coord_beq; beq_iff = coord_beq_iff }
