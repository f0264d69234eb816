-- ===== src/Uint/U160.antt =====
-- The operations of U160 (core/src/primitives/u160.rs): five words of four bytes.
use Prim.Native.Nat.{Ordering}
use blockscape.Uint
use blockscape.Uint.{ByteOrder, ParseError}
use blockscape.Base.{ℕ, ◌-◌, ◌^◌, ◌⊎◌, Bool, Option, List, [], ◌∷◌, Bin}

abbrev u160_zero : List ℕ
u160_zero = 0 ∷ 0 ∷ 0 ∷ 0 ∷ 0 ∷ []

abbrev u160_max : List ℕ
u160_max = (2 ^ 32 - 1) ∷ (2 ^ 32 - 1) ∷ (2 ^ 32 - 1) ∷ (2 ^ 32 - 1) ∷ (2 ^ 32 - 1) ∷ []

abbrev cmp : List ℕ → List ℕ → Ordering
cmp = Uint.cmp

unfoldable lt : List ℕ → List ℕ → Bool
unfolding Uint.lt
lt = Uint.lt

unfoldable le : List ℕ → List ℕ → Bool
unfolding Uint.le
le = Uint.le

unfoldable gt : List ℕ → List ℕ → Bool
unfolding Uint.gt
gt = Uint.gt

unfoldable ge : List ℕ → List ℕ → Bool
unfolding Uint.ge
ge = Uint.ge

unfoldable fmt : List ℕ → List ℕ
unfolding Uint.fmt
fmt = Uint.fmt 4

unfoldable is_zero : List ℕ → Bool
unfolding Uint.is_zero
is_zero = Uint.is_zero

module _ (order : ByteOrder 4) where
  unfoldable from_little_endian : Bin → Option (List ℕ)
  unfolding Uint.from_little_endian
  from_little_endian = Uint.from_little_endian 4 order 5

  unfoldable from_big_endian : Bin → Option (List ℕ)
  unfolding Uint.from_big_endian
  from_big_endian = Uint.from_big_endian 4 order 5

  unfoldable to_little_endian : List ℕ → Bin → Option Bin
  unfolding Uint.to_little_endian
  to_little_endian = Uint.to_little_endian 4 order

  unfoldable to_big_endian : List ℕ → Bin → Option Bin
  unfolding Uint.to_big_endian
  to_big_endian = Uint.to_big_endian 4 order

  unfoldable from_str : List ℕ → ParseError ⊎ List ℕ
  unfolding Uint.from_str
  from_str = Uint.from_str 4 order 5
