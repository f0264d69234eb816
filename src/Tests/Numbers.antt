-- ===== src/Tests/Numbers.antt =====
-- Examples of words and hexadecimal text.
use Prim.Native.Nat.{compare}
use blockscape.Base16.{ok, from_bin, to_bin}
use blockscape.Base16.Laws.{to_bin-from_bin, to_bin_plus}
use blockscape.Uint.{cmp, ByteOrder, from_little_endian, to_little_endian}
use blockscape.Uint.Laws.{value, cmp_lem, from_little_endian-to_little_endian}
use blockscape.Base.{ℕ, ◌+◌, ◌*◌, ◌/◌, ◌%◌, ◌^◌, ◌≡◌, refl, some, [], ◌∷◌, length, arith, Bin}

to_bin-from_bin_example : to_bin (from_bin (0 ∷ 255 ∷ 34 ∷ [])) ≡ ok (0 ∷ 255 ∷ 34 ∷ [])
to_bin-from_bin_example = to_bin-from_bin 0 (255 ∷ 34 ∷ []) (omega arith)

to_bin_plus_example : to_bin (b'+' ∷ b'a' ∷ []) ≡ ok (10 ∷ [])
to_bin_plus_example = to_bin_plus 10 (omega arith)

-- The lowest words differ one way and the highest the other way.
cmp_lem_example :
    cmp (7 ∷ 0 ∷ 0 ∷ 1 ∷ []) (2 ∷ 0 ∷ 0 ∷ 3 ∷ [])
    ≡ compare (value (2 ^ 64) (7 ∷ 0 ∷ 0 ∷ 1 ∷ [])) (value (2 ^ 64) (2 ∷ 0 ∷ 0 ∷ 3 ∷ []))
cmp_lem_example =
    cmp_lem (2 ^ 64) (7 ∷ 0 ∷ 0 ∷ 1 ∷ []) (2 ∷ 0 ∷ 0 ∷ 3 ∷ []) refl (omega arith) (omega arith)

abbrev read_two : Bin → ℕ
read_two (a ∷ b ∷ bs) = a + 256 * b
read_two _ = 0

-- Words of two bytes, the lowest first.
abbrev two_bytes : ByteOrder 2
two_bytes = record {
  read = read_two;
  write = λ n. (n % 256) ∷ (n / 256) ∷ [];
  length-write = λ n. omega arith;
  read-write = λ n h. omega arith;
}

from_little_endian-to_little_endian_example :
    (written : Bin) × (to_little_endian 2 two_bytes (258 ∷ 5 ∷ []) (9 ∷ 9 ∷ 9 ∷ 9 ∷ 9 ∷ [])
      ≡ some written)
    × (length written ≡ 5)
    × (from_little_endian 2 two_bytes 2 written ≡ some (258 ∷ 5 ∷ []))
from_little_endian-to_little_endian_example =
    from_little_endian-to_little_endian 2 two_bytes (258 ∷ 5 ∷ []) (9 ∷ 9 ∷ 9 ∷ 9 ∷ 9 ∷ [])
      (omega arith) (omega arith)
