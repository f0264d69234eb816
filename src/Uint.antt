-- ===== src/Uint.antt =====
-- Hashes and addresses as arrays of machine words (core/src/primitives/u256.rs and u160.rs): U256 has
-- four words of 64 bits, U160 five of 32 bits, the lowest first. What the two types share is given the
-- number of words and their size in bytes. `byteorder` is a parameter.
pub mod Laws
pub mod U160
use Prim.Native.Nat.{compare, Ordering}
use blockscape.Base16.{to_bin, digit}
use blockscape.Base16
use blockscape.Base.{
  ℕ, zero, suc, ◌+◌, ◌-◌, ◌*◌, ◌/◌, ◌%◌, ◌^◌, ◌<◌, ◌≡◌, ◌⊎◌, inl, inr, Bool, true, false, not, ◌&&◌,
  Option, none, some, List, [], ◌∷◌, ◌++◌, reverse, length, ltb, leb, nat_eq, ◌==◌, list_eq,
  if◌then◌else◌, Bin,
}

abbrev pub take : ℕ → Bin → Bin
take zero bs = []
take (suc n) [] = []
take (suc n) (b ∷ bs) = b ∷ take n bs

abbrev pub drop : ℕ → Bin → Bin
drop zero bs = bs
drop (suc n) [] = []
drop (suc n) (b ∷ bs) = drop n bs

abbrev pub zeros : ℕ → List ℕ
zeros zero = []
zeros (suc n) = 0 ∷ zeros n

-- `ByteOrder::read_u64` and `write_u64`, or those of 32 bits: a word that was written is read back.
pub record ByteOrder (width : ℕ) : Type 0 where
  pub read : Bin → ℕ
  pub write : ℕ → Bin
  pub length-write : (n : ℕ) → length (write n) ≡ width
  pub read-write : (n : ℕ) → n < 256 ^ width → read (write n) ≡ n

-- The loop of `cmp`, which begins at the highest word.
abbrev pub cmp : List ℕ → List ℕ → Ordering
cmp (a ∷ as') (b ∷ bs) = elim (cmp as' bs) [ Ordering.eq ↦ compare a b | other ↦ other ]
cmp _ _ = Ordering.eq

unfoldable pub lt : List ℕ → List ℕ → Bool
lt a b = elim (cmp a b) [ Ordering.lt ↦ true | _ ↦ false ]

unfoldable pub le : List ℕ → List ℕ → Bool
le a b = elim (cmp a b) [ Ordering.lt ↦ true | Ordering.eq ↦ true | _ ↦ false ]

unfoldable pub gt : List ℕ → List ℕ → Bool
unfolding le
gt a b = not (le a b)

unfoldable pub ge : List ℕ → List ℕ → Bool
unfolding lt
ge a b = not (lt a b)

-- `U256_ZERO` and `U256_MAX`.
abbrev u256_zero : List ℕ
u256_zero = 0 ∷ 0 ∷ 0 ∷ 0 ∷ []

abbrev u256_max : List ℕ
u256_max = (2 ^ 64 - 1) ∷ (2 ^ 64 - 1) ∷ (2 ^ 64 - 1) ∷ (2 ^ 64 - 1) ∷ []

-- `From<u64>` of U256 and of U160, and `Into<u64>`.
abbrev pub u256_from : ℕ → List ℕ
u256_from v = v ∷ 0 ∷ 0 ∷ 0 ∷ []

abbrev pub u160_from : ℕ → List ℕ
u160_from v = (v % 2 ^ 32) ∷ (v / 2 ^ 32 % 2 ^ 32) ∷ 0 ∷ 0 ∷ 0 ∷ []

abbrev pub into_u64 : List ℕ → Option ℕ
into_u64 [] = none
into_u64 (v ∷ _) = some v

-- Whether all words are zero.
unfoldable pub is_zero : List ℕ → Bool
is_zero a = a == zeros (length a)

-- A word in hexadecimal digits, with zeros in front.
abbrev hex_word : ℕ → ℕ → List ℕ
hex_word zero n = []
hex_word (suc k) n = hex_word k (n / 16) ++ digit (n % 16) ∷ []

abbrev hex_words : ℕ → List ℕ → List ℕ
hex_words digits [] = []
hex_words digits (w ∷ ws) = hex_words digits ws ++ hex_word digits w

-- `Display` and `Debug`.
unfoldable pub fmt : ℕ → List ℕ → List ℕ
fmt width a = b'0' ∷ b'x' ∷ hex_words (2 * width) a

pub data ParseError : Type 0 where
  base16 : Base16.Error → ParseError
  too_large panics : ParseError

module _ (width : ℕ) (order : ByteOrder width) where
  -- The words of the chunks of a slice.
  abbrev pub read_words : ℕ → Bin → List ℕ
  read_words zero slice = []
  read_words (suc n) slice = order.read (take width slice) ∷ read_words n (drop width slice)

  abbrev pub write_words : List ℕ → Bin
  write_words [] = []
  write_words (w ∷ ws) = order.write w ++ write_words ws

  -- `none` is a failed assertion on the length of the slice.
  unfoldable pub from_little_endian : ℕ → Bin → Option (List ℕ)
  from_little_endian count slice =
      if leb (count * width) (length slice) then some (read_words count slice) else none

  -- The slice after the words are written in front of it.
  unfoldable pub to_little_endian : List ℕ → Bin → Option Bin
  to_little_endian a slice =
      if leb (length a * width) (length slice)
      then some (write_words a ++ drop (length a * width) slice)
      else none

  -- The same by a byte order that begins with the highest byte, and from the highest word.
  unfoldable pub from_big_endian : ℕ → Bin → Option (List ℕ)
  from_big_endian count slice =
      if leb (count * width) (length slice) then some (reverse (read_words count slice)) else none

  unfoldable pub to_big_endian : List ℕ → Bin → Option Bin
  to_big_endian a slice =
      if leb (length a * width) (length slice)
      then some (write_words (reverse a) ++ drop (length a * width) slice)
      else none

  abbrev checked : ℕ → Bin → ParseError ⊎ List ℕ
  checked count bin =
      if ltb (count * width) (length bin)
      then inl too_large
      else elim (from_little_endian count (reverse bin ++ zeros (count * width + 1 - length bin))) [
        | none ↦ inl panics
        | some a ↦ inr a
      ]

  -- `FromStr`
  unfoldable pub from_str : ℕ → List ℕ → ParseError ⊎ List ℕ
  unfolding to_bin from_little_endian
  from_str count v = elim (to_bin v) [
    | Base16.err e ↦ inl (base16 e)
    | Base16.ok bin ↦ checked count bin
  ]
