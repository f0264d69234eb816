-- ===== src/HashMap.antt =====
-- The standard library's `HashMap` and `HashSet`, as association lists under a test of equality of
-- the keys. Iteration goes along the list, which stands for the arbitrary order of the source.
use blockscape.Base.{
  ◌≡◌, Bool, true, false, Option, none, some, List, [], ◌∷◌, ◌==◌, Eq, if◌then◌else◌, arith, refl,
  Bool-cases, inl, inr,
}

abbrev pub HashMap : Type 0 → Type 0 → Type 0
HashMap K V = List (K × V)

module _ {K V : Type 0} ⦃e : Eq K⦄ where
  abbrev pub get : K → HashMap K V → Option V
  get k [] = none
  get k ((j, w) ∷ m) = if k == j then some w else get k m

  abbrev pub contains_key : K → HashMap K V → Bool
  contains_key k m = elim (get k m) [ none ↦ false | some _ ↦ true ]

  abbrev pub insert : K → V → HashMap K V → HashMap K V
  insert k v [] = (k, v) ∷ []
  insert k v ((j, w) ∷ m) = if k == j then (k, v) ∷ m else (j, w) ∷ insert k v m

  -- Every entry of the key, of which `insert` keeps at most one.
  abbrev pub remove : K → HashMap K V → HashMap K V
  remove k [] = []
  remove k ((j, w) ∷ m) = let rest = remove k m in if k == j then rest else (j, w) ∷ rest

  pub get-insert :
      (k j : K) (v : V) (m : HashMap K V)
      → get j (insert k v m) ≡ (if k == j then some v else get j m)
  get-insert k j v [] = ground (arith, e.beq_iff k j, e.beq_iff j k)
  get-insert k j v ((i, w) ∷ m) =
      ground (arith, get-insert k j v m, e.beq_iff k j, e.beq_iff j k, e.beq_iff k i, e.beq_iff j i)

  pub get-remove :
      (k j : K) (m : HashMap K V) → get j (remove k m) ≡ (if k == j then none else get j m)
  get-remove k j [] = ground arith
  get-remove k j ((i, w) ∷ m) =
      ground (arith, get-remove k j m, e.beq_iff k j, e.beq_iff k i, e.beq_iff j i)

  -- Every key has one entry.
  abbrev pub IsUnique : HashMap K V → Type 0
  IsUnique [] = Unit {0}
  IsUnique ((k, v) ∷ m) = (contains_key k m ≡ false) × IsUnique m

  pub insert-IsUnique : (k : K) (v : V) (m : HashMap K V) → IsUnique m → IsUnique (insert k v m)
  insert-IsUnique k v [] u = (refl, tt)
  insert-IsUnique k v ((j, w) ∷ m) u = elim (Bool-cases (k == j)) [
    | inl h ↦ let same : k ≡ j = (e.beq_iff k j).0 h in rw h (rw same u)
    | inr h ↦ rw h (ground (arith, get-insert k j v m, e.beq_iff k j, u), insert-IsUnique k v m u.1)
  ]

  pub remove-IsUnique : (k : K) (m : HashMap K V) → IsUnique m → IsUnique (remove k m)
  remove-IsUnique k [] u = tt
  remove-IsUnique k ((j, w) ∷ m) u = elim (Bool-cases (k == j)) [
    | inl h ↦ rw h (remove-IsUnique k m u.1)
    | inr h ↦ rw h (ground (arith, get-remove k j m, e.beq_iff k j, u), remove-IsUnique k m u.1)
  ]
