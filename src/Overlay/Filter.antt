-- ===== src/Overlay/Filter.antt =====
-- The filter on keys of a difference (core/src/record_keeper/db_state.rs): the standard library's
-- `sort_unstable` and `binary_search` on byte strings, which are compared in lexicographic order.
-- The search is one along the sorted list, which finds what a search by halves finds there.
use blockscape.Base.{
  ◌≡◌, refl, Bool, true, false, ◌||◌, List, [], ◌∷◌, Bin, ltb, nat_eq, list_eq, list_beq_iff, ◌==◌,
  contains, if◌then◌else◌, arith, Bool-cases, inl, inr, ◌∙◌,
}

unfoldable pub bin_ltb : Bin → Bin → Bool
bin_ltb [] [] = false
bin_ltb [] (y ∷ ys) = true
bin_ltb (x ∷ xs) [] = false
bin_ltb (x ∷ xs) (y ∷ ys) =
    let rest = bin_ltb xs ys in if ltb x y then true else if ltb y x then false else rest

abbrev place : Bin → List Bin → List Bin
place k [] = k ∷ []
place k (x ∷ xs) = if bin_ltb x k then x ∷ place k xs else k ∷ x ∷ xs

-- `sort_unstable`
unfoldable pub sort : List Bin → List Bin
sort [] = []
sort (x ∷ xs) = place x (sort xs)

-- `binary_search(&k).is_ok()`
unfoldable pub binary_search : Bin → List Bin → Bool
binary_search k [] = false
binary_search k (x ∷ xs) =
    let rest = binary_search k xs in if x == k then true else if bin_ltb k x then false else rest

ltb_irrefl : (a : Bin) → bin_ltb a a ≡ false
unfolding bin_ltb
ltb_irrefl [] = refl
ltb_irrefl (x ∷ xs) = ground (arith, ltb_irrefl xs)

ltb_trans : (a b c : Bin) → bin_ltb a b ≡ true → bin_ltb b c ≡ true → bin_ltb a c ≡ true
unfolding bin_ltb
ltb_trans [] [] c h g = cc
ltb_trans [] (y ∷ b) [] h g = cc
ltb_trans [] (y ∷ b) (z ∷ c) h g = refl
ltb_trans (x ∷ a) [] c h g = cc
ltb_trans (x ∷ a) (y ∷ b) [] h g = cc
ltb_trans (x ∷ a) (y ∷ b) (z ∷ c) h g = ground (arith, ltb_trans a b c)

ltb_total : (a b : Bin) → bin_ltb a b ≡ false → bin_ltb b a ≡ false → a ≡ b
unfolding bin_ltb
ltb_total [] [] h g = refl
ltb_total [] (y ∷ b) h g = cc
ltb_total (x ∷ a) [] h g = cc
ltb_total (x ∷ a) (y ∷ b) h g = ground (arith, ltb_total a b)

later : (a b : Bin) → bin_ltb a b ≡ true → bin_ltb b a ≡ false
later a b h = ground (arith, ltb_trans a b a, ltb_irrefl a)

-- Every entry is at least `k`, and the list ascends.
abbrev AllFrom : Bin → List Bin → Type 0
AllFrom k [] = Unit
AllFrom k (x ∷ xs) = (bin_ltb x k ≡ false) × AllFrom k xs

abbrev Ascends : List Bin → Type 0
Ascends [] = Unit
Ascends (x ∷ xs) = AllFrom x xs × Ascends xs

AllFrom-mono : (j k : Bin) (l : List Bin) → bin_ltb k j ≡ false → AllFrom k l → AllFrom j l
AllFrom-mono j k [] h a = tt
AllFrom-mono j k (x ∷ l) h a = (
  ground (arith, ltb_trans x j k, ltb_total j k, ltb_total x j, ltb_total k x, ltb_trans k x j),
  AllFrom-mono j k l h a.1,
)

AllFrom-place :
    (j k : Bin) (l : List Bin) → bin_ltb k j ≡ false → AllFrom j l → AllFrom j (place k l)
AllFrom-place j k [] h a = (h, tt)
AllFrom-place j k (x ∷ l) h a = ground (arith, AllFrom-place j k l h)

Ascends-place : (k : Bin) (l : List Bin) → Ascends l → Ascends (place k l)
Ascends-place k [] a = (tt, tt)
Ascends-place k (x ∷ l) a = elim (Bool-cases (bin_ltb x k)) [
  | inl e ↦ rw e (AllFrom-place x k l (later x k e) a.0, Ascends-place k l a.1)
  | inr e ↦ rw e ((e, AllFrom-mono k x l e a.0), a)
]

sort-Ascends : (l : List Bin) → Ascends (sort l)
unfolding sort
sort-Ascends [] = tt
sort-Ascends (x ∷ l) = Ascends-place x (sort l) (sort-Ascends l)

contains-place :
    (k : Bin) (l : List Bin) (j : Bin) → contains (place k l) j ≡ (k == j || contains l j)
contains-place k [] j = refl
contains-place k (x ∷ l) j = ground (arith, contains-place k l j)

contains-sort : (l : List Bin) (j : Bin) → contains (sort l) j ≡ contains l j
unfolding sort
contains-sort [] j = refl
contains-sort (x ∷ l) j = ground (arith, contains-sort l j, contains-place x (sort l) j)

contains_below :
    (k x : Bin) (l : List Bin) → AllFrom x l → bin_ltb k x ≡ true → contains l k ≡ false
contains_below k x [] a h = refl
contains_below k x (y ∷ l) a h = ground (arith, contains_below k x l a.1 h, list_beq_iff y k)

search-contains : (k : Bin) (l : List Bin) → Ascends l → binary_search k l ≡ contains l k
unfolding binary_search
search-contains k [] a = refl
search-contains k (x ∷ l) a = ground (arith, search-contains k l a.1, contains_below k x l a.0)

-- Searching in the sorted filters finds exactly the byte strings among the filters given.
pub search-sort : (k : Bin) (l : List Bin) → binary_search k (sort l) ≡ contains l k
search-sort k l = search-contains k (sort l) (sort-Ascends l) ∙ contains-sort l k
