-- ===== src/Nodes/Sort.antt =====
-- The sort of the repository: it keeps the nodes and orders them by descending score.
use blockscape.Base.{
  ℕ, ◌+◌, ◌≤◌, ◌<◌, ◌≡◌, refl, List, [], ◌∷◌, ◌++◌, leb, nat_eq, ◌==◌, if◌then◌else◌, retain_ne,
  Bool-cases, inl, inr, arith,
}
use blockscape.Nodes.{insert_by, sort_by}

-- How often a node is listed.
abbrev pub count : ℕ → List ℕ → ℕ
count k [] = 0
count k (j ∷ l) = (if k == j then 1 else 0) + count k l

abbrev pub AllBelow : (ℕ → ℕ) → ℕ → List ℕ → Type 0
AllBelow f n [] = Unit
AllBelow f n (j ∷ l) = (f j ≤ n) × AllBelow f n l

-- The scores fall along the list.
abbrev pub Falls : (ℕ → ℕ) → List ℕ → Type 0
Falls f [] = Unit
Falls f (j ∷ l) = AllBelow f (f j) l × Falls f l

pub count-append : (k : ℕ) (l m : List ℕ) → count k (l ++ m) ≡ count k l + count k m
count-append k [] m = omega arith
count-append k (j ∷ l) m = ground (arith, count-append k l m)

pub count-retain_ne :
    (k j : ℕ) (l : List ℕ) → count k (retain_ne j l) ≡ (if j == k then 0 else count k l)
count-retain_ne k j [] = ground arith
count-retain_ne k j (i ∷ l) = ground (arith, count-retain_ne k j l)

module _ (f : ℕ → ℕ) where
  count-insert_by : (k j : ℕ) (l : List ℕ) → count k (insert_by f j l) ≡ count k (j ∷ l)
  unfolding insert_by
  count-insert_by k j [] = refl
  count-insert_by k j (i ∷ l) = ground (arith, count-insert_by k j l)

  pub count-sort_by : (k : ℕ) (l : List ℕ) → count k (sort_by f l) ≡ count k l
  unfolding sort_by
  count-sort_by k [] = refl
  count-sort_by k (j ∷ l) = ground (arith, count-insert_by k j (sort_by f l), count-sort_by k l)

  AllBelow-mono : (m n : ℕ) (l : List ℕ) → m ≤ n → AllBelow f m l → AllBelow f n l
  AllBelow-mono m n [] h a = tt
  AllBelow-mono m n (j ∷ l) h a = (omega arith, AllBelow-mono m n l h a.1)

  AllBelow-insert_by :
      (n k : ℕ) (l : List ℕ) → f k ≤ n → AllBelow f n l → AllBelow f n (insert_by f k l)
  unfolding insert_by
  AllBelow-insert_by n k [] h a = (h, tt)
  AllBelow-insert_by n k (j ∷ l) h a = elim (Bool-cases (leb (f j) (f k))) [
    | inl e ↦ rw e (h, a)
    | inr e ↦ rw e (a.0, AllBelow-insert_by n k l h a.1)
  ]

  Falls-insert_by : (k : ℕ) (l : List ℕ) → Falls f l → Falls f (insert_by f k l)
  unfolding insert_by
  Falls-insert_by k [] a = (tt, tt)
  Falls-insert_by k (j ∷ l) a = elim (Bool-cases (leb (f j) (f k))) [
    | inl e ↦ rw e ((ground arith, AllBelow-mono (f j) (f k) l (ground arith) a.0), a)
    | inr e ↦ rw e (AllBelow-insert_by (f j) k l (ground arith) a.0, Falls-insert_by k l a.1)
  ]

  pub Falls-sort_by : (l : List ℕ) → Falls f (sort_by f l)
  unfolding sort_by
  Falls-sort_by [] = tt
  Falls-sort_by (k ∷ l) = Falls-insert_by k (sort_by f l) (Falls-sort_by l)

  AllBelow-retain_ne : (n k : ℕ) (l : List ℕ) → AllBelow f n l → AllBelow f n (retain_ne k l)
  AllBelow-retain_ne n k [] a = tt
  AllBelow-retain_ne n k (j ∷ l) a = elim (Bool-cases (j == k)) [
    | inl e ↦ rw e (AllBelow-retain_ne n k l a.1)
    | inr e ↦ rw e (a.0, AllBelow-retain_ne n k l a.1)
  ]

  pub Falls-retain_ne : (k : ℕ) (l : List ℕ) → Falls f l → Falls f (retain_ne k l)
  Falls-retain_ne k [] a = tt
  Falls-retain_ne k (j ∷ l) a = elim (Bool-cases (j == k)) [
    | inl e ↦ rw e (Falls-retain_ne k l a.1)
    | inr e ↦ rw e (AllBelow-retain_ne (f j) k l a.0, Falls-retain_ne k l a.1)
  ]

  AllBelow-append : (n k : ℕ) (l : List ℕ) → f k ≤ n → AllBelow f n l → AllBelow f n (l ++ k ∷ [])
  AllBelow-append n k [] h a = (h, tt)
  AllBelow-append n k (j ∷ l) h a = (a.0, AllBelow-append n k l h a.1)

  -- A node of score zero may come last.
  pub Falls-append : (k : ℕ) (l : List ℕ) → f k ≡ 0 → Falls f l → Falls f (l ++ k ∷ [])
  Falls-append k [] h a = (tt, tt)
  Falls-append k (j ∷ l) h a = (AllBelow-append (f j) k l (omega arith) a.0, Falls-append k l h a.1)

-- Only the scores of the listed nodes matter.
pub Falls-cong :
    (f g : ℕ → ℕ) (l : List ℕ) → ((k : ℕ) → 0 < count k l → f k ≡ g k) → Falls f l → Falls g l
Falls-cong f g [] h a = tt
Falls-cong f g (j ∷ l) h a =
    (below l (λ k p. h k (ground arith)) a.0, Falls-cong f g l (λ k p. h k (ground arith)) a.1)
  where
    head : f j ≡ g j
    head = h j (ground arith)

    below :
        (m : List ℕ)
        → ((k : ℕ) → 0 < count k m → f k ≡ g k)
        → AllBelow f (f j) m
        → AllBelow g (g j) m
    below [] e b = tt
    below (i ∷ m) e b =
        let here = e i (ground arith) in
        (omega (arith, here, head), below m (λ k p. e k (ground arith)) b.1)
