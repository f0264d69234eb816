-- ===== src/Base16/Laws.antt =====
-- Hexadecimal text is read back.
use blockscape.Base16.{
  digit, from_bin, to_digit, two_chars, segments, without_prefix, ok, to_bin, to_bin_of, answer,
}
use blockscape.Base.{
  ℕ, ◌/◌, ◌%◌, ◌<◌, ◌≡◌, refl, ◌∙◌, ap, some, List, [], ◌∷◌, ◌++◌, reverse, arith, ◌==◌, nat_eq,
  false, Bin,
}
use mathlib.Core.List.{reverse-reverse, reverse-cons, append_assoc}

abbrev pub AreBytes : Bin → Type 0
AreBytes [] = Unit {0}
AreBytes (b ∷ bs) = (b < 256) × AreBytes bs

to_digit-digit : (n : ℕ) → n < 16 → to_digit (digit n) ≡ some n
to_digit-digit n h = ground arith

two_chars-digit : (b : ℕ) → b < 256 → two_chars (digit (b / 16)) (digit (b % 16)) ≡ some b
two_chars-digit b h =
    ground (arith, to_digit-digit (b / 16) (omega arith), to_digit-digit (b % 16) (omega arith))

-- The text of bytes backwards.
backwards : Bin → List ℕ
backwards [] = []
backwards (b ∷ bs) = digit (b % 16) ∷ digit (b / 16) ∷ backwards bs

backwards-append : (xs ys : Bin) → backwards (xs ++ ys) ≡ backwards xs ++ backwards ys
unfolding backwards
backwards-append [] ys = refl
backwards-append (x ∷ xs) ys =
    ap (λ l. digit (x % 16) ∷ digit (x / 16) ∷ l) (backwards-append xs ys)

reverse-from_bin : (bs : Bin) → reverse (from_bin bs) ≡ backwards (reverse bs)
unfolding from_bin backwards
reverse-from_bin [] = refl
reverse-from_bin (b ∷ bs) = simp (reverse-cons, reverse-from_bin bs, backwards-append, append_assoc)

segments-backwards : (bs : Bin) → AreBytes bs → segments (backwards bs) ≡ some bs
unfolding backwards
segments-backwards [] h = refl
segments-backwards (b ∷ bs) h = rw (two_chars-digit b h.0) (rw (segments-backwards bs h.1) refl)

AreBytes-append : (xs ys : Bin) → AreBytes xs → AreBytes ys → AreBytes (xs ++ ys)
AreBytes-append [] ys h k = k
AreBytes-append (x ∷ xs) ys h k = (h.0, AreBytes-append xs ys h.1 k)

reverse-AreBytes : (bs : Bin) → AreBytes bs → AreBytes (reverse bs)
reverse-AreBytes [] h = tt
reverse-AreBytes (b ∷ bs) h =
    rw (reverse-cons b bs)
      (AreBytes-append (reverse bs) (b ∷ []) (reverse-AreBytes bs h.1) (h.0, tt))

digit_not_x : (n : ℕ) → n < 16 → (digit n == b'x') ≡ false
digit_not_x n h = ground arith

-- The text of bytes never begins with the prefix.
without_prefix-from_bin : (bs : Bin) → AreBytes bs → without_prefix (from_bin bs) ≡ from_bin bs
unfolding from_bin
without_prefix-from_bin [] h = refl
without_prefix-from_bin (b ∷ []) h = refl
without_prefix-from_bin (b ∷ c ∷ bs) h = ground (arith, digit_not_x (b % 16) (omega arith))

segments-from_bin : (bs : Bin) → AreBytes bs → segments (reverse (from_bin bs)) ≡ some (reverse bs)
segments-from_bin bs h =
    ap segments (reverse-from_bin bs) ∙ segments-backwards (reverse bs) (reverse-AreBytes bs h)

to_bin_of-from_bin :
    (b : ℕ) (bs : Bin)
    → AreBytes (b ∷ bs)
    → to_bin_of (from_bin (b ∷ bs)) ≡ answer (segments (reverse (from_bin (b ∷ bs))))
unfolding from_bin
to_bin_of-from_bin b bs h = refl

-- Bytes, at least one, written as hexadecimal text are read back from it.
pub to_bin-from_bin :
    (b : ℕ) (bs : Bin) → AreBytes (b ∷ bs) → to_bin (from_bin (b ∷ bs)) ≡ ok (b ∷ bs)
unfolding to_bin
to_bin-from_bin b bs h =
    ap to_bin_of (without_prefix-from_bin (b ∷ bs) h)
    ∙ to_bin_of-from_bin b bs h
    ∙ ap answer (segments-from_bin (b ∷ bs) h)
    ∙ ap ok (reverse-reverse (b ∷ bs))

-- A plus sign before one digit is taken for a byte.
pub to_bin_plus : (n : ℕ) → n < 16 → to_bin (b'+' ∷ digit n ∷ []) ≡ ok (n ∷ [])
unfolding to_bin
to_bin_plus n h = rw (to_digit-digit n h) refl
