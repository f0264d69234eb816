-- ===== src/BTreeMap.antt =====
-- The standard library's `BTreeMap` with `u64` keys, as an association list in ascending order of
-- its keys. Iteration (`iter`, and `rev` of it) goes along the list.
use blockscape.Base.{
  ℕ, suc, ◌≤◌, ◌<◌, ◌≡◌, refl, Bool, true, false, Option, none, some, List, [], ◌∷◌, ltb, ◌==◌,
  nat_eq, arith, if◌then◌else◌,
}

abbrev pub BTreeMap {ℓ} : Type ℓ → Type ℓ
BTreeMap V = List (ℕ × V)

module _ {ℓ} {V : Type ℓ} where
  abbrev pub get : ℕ → BTreeMap V → Option V
  get k [] = none
  get k ((j, w) ∷ m) = if k == j then some w else get k m

  abbrev pub contains_key : ℕ → BTreeMap V → Bool
  contains_key k m = elim (get k m) [ none ↦ false | some _ ↦ true ]

  abbrev pub insert : ℕ → V → BTreeMap V → BTreeMap V
  insert k v [] = (k, v) ∷ []
  insert k v ((j, w) ∷ m) =
      if ltb k j then (k, v) ∷ (j, w) ∷ m else if k == j then (k, v) ∷ m else (j, w) ∷ insert k v m

  abbrev pub remove : ℕ → BTreeMap V → BTreeMap V
  remove k [] = []
  remove k ((j, w) ∷ m) = if k == j then m else (j, w) ∷ remove k m

  -- The entries from `k` on, which `split_off` returns.
  abbrev pub split_off : ℕ → BTreeMap V → BTreeMap V
  split_off k [] = []
  split_off k ((j, w) ∷ m) = let rest = split_off k m in if ltb j k then rest else (j, w) ∷ m

  -- The entries before `k`, which `split_off` leaves.
  abbrev pub before : ℕ → BTreeMap V → BTreeMap V
  before k [] = []
  before k ((j, w) ∷ m) = let rest = before k m in if ltb j k then (j, w) ∷ rest else []

  -- `append`: the entries of the second map replace those of the first.
  abbrev pub append : BTreeMap V → BTreeMap V → BTreeMap V
  append m [] = m
  append m ((k, v) ∷ n) = append (insert k v m) n

  -- The keys ascend strictly, from `lo` on.
  abbrev pub Ascends : ℕ → BTreeMap V → Type 0
  Ascends lo [] = Unit
  Ascends lo ((k, v) ∷ m) = (lo ≤ k) × Ascends (suc k) m

  abbrev pub IsSorted : BTreeMap V → Type 0
  IsSorted m = Ascends 0 m

  pub Ascends-mono : (m : BTreeMap V) (lo hi : ℕ) → lo ≤ hi → Ascends hi m → Ascends lo m
  Ascends-mono [] lo hi h s = tt
  Ascends-mono ((k, v) ∷ m) lo hi h s = (omega arith, s.1)

  pub get_below : (k : ℕ) (m : BTreeMap V) (lo : ℕ) → Ascends lo m → k < lo → get k m ≡ none
  get_below k [] lo s h = refl
  get_below k ((j, w) ∷ m) lo s h = ground (arith, get_below k m (suc j) s.1)

  pub get-insert :
      (k j : ℕ) (v : V) (m : BTreeMap V)
      → get j (insert k v m) ≡ (if k == j then some v else get j m)
  get-insert k j v [] = ground arith
  get-insert k j v ((i, w) ∷ m) = ground (arith, get-insert k j v m)

  pub get-remove :
      (k j : ℕ) (m : BTreeMap V) (lo : ℕ)
      → Ascends lo m
      → get j (remove k m) ≡ (if k == j then none else get j m)
  get-remove k j [] lo s = ground arith
  get-remove k j ((i, w) ∷ m) lo s =
      ground (arith, get-remove k j m (suc i) s.1, get_below k m (suc i) s.1)

  pub insert-Ascends :
      (k : ℕ) (v : V) (m : BTreeMap V) (lo : ℕ) → lo ≤ k → Ascends lo m → Ascends lo (insert k v m)
  insert-Ascends k v [] lo h s = (h, tt)
  insert-Ascends k v ((j, w) ∷ m) lo h s = ground (arith, insert-Ascends k v m (suc j))

  pub remove-Ascends : (k : ℕ) (m : BTreeMap V) (lo : ℕ) → Ascends lo m → Ascends lo (remove k m)
  remove-Ascends k [] lo s = tt
  remove-Ascends k ((j, w) ∷ m) lo s =
      ground (arith, remove-Ascends k m (suc j) s.1, Ascends-mono m lo (suc j))

  -- Removing a key that was new gives the map back.
  pub remove-insert :
      (k : ℕ) (v : V) (m : BTreeMap V) → get k m ≡ none → remove k (insert k v m) ≡ m
  remove-insert k v [] h = ground arith
  remove-insert k v ((j, w) ∷ m) h = ground (arith, remove-insert k v m)

  -- Writing back what a key had gives the map back.
  pub insert_back :
      (k : ℕ) (v w : V) (m : BTreeMap V) (lo : ℕ)
      → Ascends lo m
      → get k m ≡ some w
      → insert k w (insert k v m) ≡ m
  insert_back k v w [] lo s h = cc
  insert_back k v w ((j, u) ∷ m) lo s h =
      ground (arith, insert_back k v w m (suc j) s.1, get_below k m (suc j) s.1)
