-- ===== src/Uint/Laws.antt =====
-- Words compare as the numbers that they stand for, and bytes that were written are read back.
use Prim.Native.Nat.{compare, Ordering}
use native.Mathlib.Nat.{mul-le-mul_left, mul-suc, suc-mul}
use blockscape.Uint.{
  cmp, ByteOrder, take, drop, read_words, write_words, from_little_endian, to_little_endian,
}
use mathlib.Core.List.{append_assoc}
use blockscape.Base.{
  ℕ, zero, suc, ◌+◌, ◌-◌, ◌*◌, ◌^◌, ◌<◌, ◌≤◌, ◌≡◌, refl, ◌∙◌, ap, ap₂, true, some, List, [], ◌∷◌,
  ◌++◌, length, length-append, Bool-cases, inl, inr, ltb, leb, arith, Bin,
}

-- The number that words stand for, each below `base`.
abbrev pub value : ℕ → List ℕ → ℕ
value base [] = 0
value base (w ∷ ws) = w + base * value base ws

abbrev pub AllBelow : ℕ → List ℕ → Type 0
AllBelow base [] = Unit {0}
AllBelow base (w ∷ ws) = (w < base) × AllBelow base ws

-- The order of two words counts where those above them are equal.
abbrev by_top : ℕ → ℕ → Ordering → Ordering
by_top a b Ordering.eq = compare a b
by_top a b Ordering.lt = Ordering.lt
by_top a b Ordering.gt = Ordering.gt

scaled : (base x y : ℕ) → x < y → base * x + base ≤ base * y
scaled base x y h = omega (arith, mul-le-mul_left base h, mul-suc base x)

by_top-compare :
    (base a b x y : ℕ)
    → a < base
    → b < base
    → by_top a b (compare x y) ≡ compare (a + base * x) (b + base * y)
by_top-compare base a b x y h k = elim (Bool-cases (ltb x y)) [
  | inl below ↦ ground (arith, scaled base x y)
  | inr not_below ↦ elim (Bool-cases (ltb y x)) [
    | inl above ↦ ground (arith, scaled base y x)
    | inr not_above ↦ let same : x ≡ y = ground arith in rw same (ground arith)
  ]
]

-- Two arrays of as many words compare as their numbers do.
pub cmp_lem :
    (base : ℕ) (as' bs : List ℕ)
    → length as' ≡ length bs
    → AllBelow base as'
    → AllBelow base bs
    → cmp as' bs ≡ compare (value base as') (value base bs)
cmp_lem base [] [] e h k = ground arith
cmp_lem base [] (b ∷ bs) e h k = absurd (omega arith)
cmp_lem base (a ∷ as') [] e h k = absurd (omega arith)
cmp_lem base (a ∷ as') (b ∷ bs) e h k =
    ap (by_top a b) (cmp_lem base as' bs (omega arith) h.1 k.1)
    ∙ by_top-compare base a b (value base as') (value base bs) h.0 k.0

take-append : (n : ℕ) (xs ys : Bin) → length xs ≡ n → take n (xs ++ ys) ≡ xs
take-append zero [] ys h = refl
take-append zero (x ∷ xs) ys h = absurd (omega arith)
take-append (suc n) [] ys h = absurd (omega arith)
take-append (suc n) (x ∷ xs) ys h = ap (λ l. x ∷ l) (take-append n xs ys (omega arith))

drop-append : (n : ℕ) (xs ys : Bin) → length xs ≡ n → drop n (xs ++ ys) ≡ ys
drop-append zero [] ys h = refl
drop-append zero (x ∷ xs) ys h = absurd (omega arith)
drop-append (suc n) [] ys h = absurd (omega arith)
drop-append (suc n) (x ∷ xs) ys h = drop-append n xs ys (omega arith)

length-drop : (n : ℕ) (xs : Bin) → length (drop n xs) ≡ length xs - n
length-drop zero xs = omega arith
length-drop (suc n) [] = omega arith
length-drop (suc n) (x ∷ xs) = omega (arith, length-drop n xs)

module _ (width : ℕ) (order : ByteOrder width) where
  length-write_words : (a : List ℕ) → length (write_words width order a) ≡ length a * width
  length-write_words [] = omega arith
  length-write_words (w ∷ ws) =
      length-append (order.write w) (write_words width order ws)
      ∙ ap₂ (λ x y. x + y) (order.length-write w) (length-write_words ws)
      ∙ omega (arith, suc-mul (length ws) width)

  read_words-write_words :
      (a : List ℕ) (rest : Bin)
      → AllBelow (256 ^ width) a
      → read_words width order (length a) (write_words width order a ++ rest) ≡ a
  read_words-write_words [] rest h = refl
  read_words-write_words (w ∷ ws) rest h =
      let split : write_words width order (w ∷ ws) ++ rest
          ≡ order.write w ++ (write_words width order ws ++ rest) =
        append_assoc (order.write w) (write_words width order ws) rest in
      rw split (
        ap₂ (λ x l. x ∷ l)
          (ap order.read (take-append width (order.write w) _ (order.length-write w))
            ∙ order.read-write w h.0)
          (ap (read_words width order (length ws))
              (drop-append width (order.write w) _ (order.length-write w))
            ∙ read_words-write_words ws rest h.1))

  -- Words that are written to a slice which is long enough are read back from it, and the slice
  -- keeps its length.
  pub from_little_endian-to_little_endian :
      (a : List ℕ) (slice : Bin)
      → AllBelow (256 ^ width) a
      → length a * width ≤ length slice
      → (written : Bin) × (to_little_endian width order a slice ≡ some written)
        × (length written ≡ length slice)
        × (from_little_endian width order (length a) written ≡ some a)
  unfolding to_little_endian from_little_endian
  from_little_endian-to_little_endian a slice h fits =
      let written = write_words width order a ++ drop (length a * width) slice in
      let same : length written ≡ length slice = omega (
        arith,
        length-append {0} (write_words width order a) (drop (length a * width) slice),
        length-write_words a,
        length-drop (length a * width) slice,
      ) in
      let before : leb (length a * width) (length slice) ≡ true = ground arith in
      let after : leb (length a * width) (length written) ≡ true = ground (arith, same) in
      (
        written,
        rw before refl,
        same,
        rw after (ap some (read_words-write_words a (drop (length a * width) slice) h)),
      )
