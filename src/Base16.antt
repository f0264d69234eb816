-- ===== src/Base16.antt =====
-- Hexadecimal text of bytes (core/src/base16.rs). A text is the list of the codes of its characters,
-- which are ASCII.
pub mod Laws
use blockscape.Base.{
  ℕ, ◌+◌, ◌-◌, ◌*◌, ◌/◌, ◌%◌, Bool, true, false, ◌&&◌, Option, none, some, List, [], ◌∷◌, reverse,
  length, leb, nat_eq, ◌==◌, if◌then◌else◌, Bin,
}

-- `BASE16_DIGITS`
abbrev pub digit : ℕ → ℕ
digit n = if leb n 9 then b'0' + n else b'a' + (n - 10)

-- The upper half of a byte is `byte >> 4`, the lower `byte & 0x0F`.
unfoldable pub from_bin : Bin → List ℕ
from_bin [] = []
from_bin (byte ∷ bin) = digit (byte / 16) ∷ digit (byte % 16) ∷ from_bin bin

-- `char::to_digit` for the radix 16, which takes letters of both cases.
abbrev pub to_digit : ℕ → Option ℕ
to_digit c =
    if leb b'0' c && leb c b'9'
    then some (c - b'0')
    else if leb b'a' c && leb c b'f'
    then some (c - b'a' + 10)
    else if leb b'A' c && leb c b'F'
    then some (c - b'A' + 10)
    else none

abbrev pub two_digits : Option ℕ → Option ℕ → Option ℕ
two_digits (some upper) (some lower) = some (upper * 16 + lower)
two_digits _ _ = none

-- `u8::from_str_radix` on one and on two characters. A number may begin with a plus sign.
abbrev pub one_char : ℕ → Option ℕ
one_char c = if c == b'+' then none else to_digit c

abbrev pub two_chars : ℕ → ℕ → Option ℕ
two_chars a b = if a == b'+' then to_digit b else two_digits (to_digit a) (to_digit b)

abbrev pub push : Option ℕ → Option (List ℕ) → Option (List ℕ)
push (some value) (some result) = some (value ∷ result)
push _ _ = none

-- The loop, from the end of the text: it is given backwards. Every failure is "Invalid character."
abbrev pub segments : List ℕ → Option (List ℕ)
segments [] = some []
segments (c ∷ []) = push (one_char c) (some [])
segments (b ∷ a ∷ s) = push (two_chars a b) (segments s)

-- The text less a front "0x", which is taken off where something follows.
abbrev pub without_prefix : List ℕ → List ℕ
without_prefix (a ∷ b ∷ c ∷ s) = if a == b'0' && b == b'x' then c ∷ s else a ∷ b ∷ c ∷ s
without_prefix s = s

pub data Error : Type 0 where
  empty invalid_character : Error

pub data Result (A : Type 0) : Type 0 where
  ok : A → Result A
  err : Error → Result A

abbrev pub answer : Option (List ℕ) → Result Bin
answer none = err invalid_character
answer (some result) = ok (reverse result)

abbrev pub to_bin_of : List ℕ → Result Bin
to_bin_of [] = err empty
to_bin_of (c ∷ s) = answer (segments (reverse (c ∷ s)))

unfoldable pub to_bin : List ℕ → Result Bin
to_bin base16 = to_bin_of (without_prefix base16)
