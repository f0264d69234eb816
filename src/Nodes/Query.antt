-- ===== src/Nodes/Query.antt =====
-- Asking the repository for a node: `get_nodes` is total on a valid repository, and best first.
use blockscape.HashMap
use blockscape.HashMap.{HashMap}
use blockscape.Nodes.Sort.{count, AllBelow, Falls}
use blockscape.Nodes.Invariant.{IsValid}
use blockscape.Nodes.{Node, LocalNode, NodeRepository, score_of, get_nodes}
use blockscape.Base.{
  ℕ, zero, suc, ◌%◌, ◌≤◌, ◌<◌, ◌≡◌, ◌≢◌, refl, inl, inr, some, List, [], ◌∷◌, length, get_elem?,
  nat_eq, ◌==◌, Option-cases, Bool-cases, arith,
}

get_elem?-some :
    (l : List ℕ) (i : ℕ) → i < length l → (k : ℕ) × (get_elem? l i ≡ some k) × (0 < count k l)
get_elem?-some [] i h = absurd (omega arith)
get_elem?-some (j ∷ l) zero h = (j, refl, ground arith)
get_elem?-some (j ∷ l) (suc i) h =
    let (k, e, p) = get_elem?-some l i (omega arith) in (k, e, ground arith)

get_nodes-at :
    (r : NodeRepository) (idx i k : ℕ) (n : LocalNode)
    → i ≡ idx % length r.sorted_nodes
    → get_elem? r.sorted_nodes i ≡ some k
    → HashMap.get k r.available_nodes ≡ some n
    → get_nodes r idx ≡ some n.node
unfolding get_nodes
get_nodes-at r idx i k n e f g = rw (← e, get_nodes) (rw (f, get_nodes) (rw (g, get_nodes)))

mod-length-lt : (l : List ℕ) (idx : ℕ) → l ≢ [] → idx % length l < length l
mod-length-lt [] idx h = absurd (h refl)
mod-length-lt (k ∷ l) idx h = omega arith

available_of_listed :
    (r : NodeRepository) (k : ℕ)
    → IsValid r
    → 0 < count k r.sorted_nodes
    → (n : LocalNode) × (HashMap.get k r.available_nodes ≡ some n)
available_of_listed r k v p =
    let a = v.listed k in
    elim (Option-cases (HashMap.get k r.available_nodes)) [
      | inl g ↦ absurd (ground arith)
      | inr found ↦ found
    ]

-- In a valid repository that is not empty, `get_nodes` gives a node at every index: it does not
-- panic.
pub get_nodes_total :
    (r : NodeRepository) (idx : ℕ)
    → IsValid r
    → r.sorted_nodes ≢ []
    → (n : Node) × (get_nodes r idx ≡ some n)
get_nodes_total r idx v ne =
    let (k, e, p) =
      get_elem?-some r.sorted_nodes (idx % length r.sorted_nodes)
        (mod-length-lt r.sorted_nodes idx ne) in
    let (n, g) = available_of_listed r k v p in
    (n.node, get_nodes-at r idx (idx % length r.sorted_nodes) k n refl e g)

AllBelow-count : (f : ℕ → ℕ) (n k : ℕ) (l : List ℕ) → AllBelow f n l → 0 < count k l → f k ≤ n
AllBelow-count f n k [] a p = absurd (omega arith)
AllBelow-count f n k (j ∷ l) a p = elim (Bool-cases (k == j)) [
  | inl e ↦ ground arith
  | inr e ↦ AllBelow-count f n k l a.1 (ground arith)
]

head-best :
    (f : ℕ → ℕ) (k : ℕ) (l : List ℕ)
    → Falls f l
    → 0 < count k l
    → (j : ℕ) × (get_elem? l 0 ≡ some j) × (0 < count j l) × (f k ≤ f j)
head-best f k [] a p = absurd (omega arith)
head-best f k (j ∷ l) a p = (
  j,
  refl,
  ground arith,
  elim (Bool-cases (k == j)) [
    | inl e ↦ ground arith
    | inr e ↦ AllBelow-count f (f j) k l a.0 (ground arith)
  ],
)

-- The node that a valid repository gives at index zero is that of one of its entries, and no other
-- entry has a higher score.
pub get_nodes_best :
    (r : NodeRepository) (k : ℕ) (m : LocalNode)
    → IsValid r
    → HashMap.get k r.available_nodes ≡ some m
    → (j : ℕ) × (best : LocalNode) × (HashMap.get j r.available_nodes ≡ some best)
      × (get_nodes r 0 ≡ some best.node)
      × (m.score ≤ best.score)
get_nodes_best r k m v g =
    let a = v.listed k in
    let listed : 0 < count k r.sorted_nodes = ground arith in
    let (j, e, p, le) = head-best (score_of r.available_nodes) k r.sorted_nodes v.sorted listed in
    let (best, h) = available_of_listed r j v p in
    (j, best, h, get_nodes-at r 0 0 j best (omega arith) e h, ground arith)
