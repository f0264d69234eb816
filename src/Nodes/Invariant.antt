-- ===== src/Nodes/Invariant.antt =====
-- The repository lists every node once, the best first, and files it under the hash of its key.
use blockscape.HashMap
use blockscape.HashMap.{HashMap, get-insert, get-remove}
use blockscape.Nodes.Sort.{
  count, Falls, count-sort_by, Falls-sort_by, count-retain_ne, Falls-retain_ne, count-append,
  Falls-append, Falls-cong,
}
use blockscape.Nodes.{
  Node, LocalNode, NodeRepository, local_node, score_of, resort, rescored, remove, up_score,
  down_score, get_hash_id, apply, new_node, build, node_beq, new,
}
use blockscape.Base.{
  ℕ, ◌/◌, ◌≡◌, refl, ◌∙◌, inl, inr, Bool, not, some, [], ◌∷◌, Bin, ltb, nat_eq, ◌==◌, retain_ne,
  if◌then◌else◌, if_elim, Bool-cases, Option-cases, arith,
}

-- Every node that is available is listed once, no other is listed, and the scores fall.
pub record IsValid (r : NodeRepository) : Type 0 where
  pub listed :
      (k : ℕ) → count k r.sorted_nodes ≡ (if HashMap.contains_key k r.available_nodes then 1 else 0)
  pub sorted : Falls (score_of r.available_nodes) r.sorted_nodes

-- A sort of a repository that lists every node once makes it valid.
resort-IsValid :
    (r : NodeRepository) (c : ℕ)
    → ((k : ℕ)
        → count k r.sorted_nodes ≡ (if HashMap.contains_key k r.available_nodes then 1 else 0))
    → IsValid (record (resort r) { changes = c })
unfolding resort
resort-IsValid r c h = record {
  listed = λ k. count-sort_by (score_of r.available_nodes) k r.sorted_nodes ∙ h k;
  sorted = Falls-sort_by (score_of r.available_nodes) r.sorted_nodes;
}

rescored-IsValid :
    (r : NodeRepository) (k : ℕ) (n : LocalNode) (s : ℕ)
    → IsValid r
    → HashMap.get k r.available_nodes ≡ some n
    → IsValid (rescored r k n s)
rescored-IsValid r k n s v e = resort-IsValid _ _ (λ j.
    let a = v.listed j in ground (arith, get-insert k j (record n { score = s }) r.available_nodes))

remove-IsValid : (r : NodeRepository) (k : ℕ) → IsValid r → IsValid (remove r k)
unfolding remove
remove-IsValid r k v =
    let an = r.available_nodes in
    if_elim IsValid (HashMap.contains_key k an) _ r
      (λ here. record {
        listed = λ j.
            let a = v.listed j in
            ground (arith, count-retain_ne j k r.sorted_nodes, get-remove k j an);
        sorted =
            Falls-cong (score_of an) (score_of (HashMap.remove k an)) (retain_ne k r.sorted_nodes)
              (λ j p. ground (arith, get-remove k j an, count-retain_ne j k r.sorted_nodes))
              (Falls-retain_ne (score_of an) k r.sorted_nodes v.sorted);
      })
      (λ _. v)

-- Raising and lowering a score, and removing a node, keep the repository valid.
pub score-IsValid :
    (r : NodeRepository) (k : ℕ)
    → IsValid r
    → IsValid (up_score r k).0 × IsValid (down_score r k).0 × IsValid (remove r k)
unfolding up_score down_score
score-IsValid r k v = (
  elim (Option-cases (HashMap.get k r.available_nodes)) [
    | inl e ↦ rw (e, up_score) v
    | inr (n, e) ↦ rw (e, up_score) (rescored-IsValid r k n _ v e)
  ],
  elim (Option-cases (HashMap.get k r.available_nodes)) [
    | inl e ↦ rw (e, down_score) v
    | inr (n, e) ↦
        rw (e, down_score)
          (if_elim (λ (o : NodeRepository × Bool). IsValid o.0) (ltb 0 n.score) _ _
            (λ _. rescored-IsValid r k n (n.score / 2) v e) (λ _. v))
  ],
  remove-IsValid r k v,
)

module _ (hash_pub_key : Bin → ℕ) where
  -- Every node is filed under the hash of its key.
  abbrev pub IsKeyed : NodeRepository → Type 0
  IsKeyed r =
      (k : ℕ) (n : LocalNode)
      → HashMap.get k r.available_nodes ≡ some n
      → get_hash_id hash_pub_key n.node ≡ k

  IsKeyed-insert :
      (an : HashMap ℕ LocalNode) (h : ℕ) (n : LocalNode)
      → ((k : ℕ) (m : LocalNode) → HashMap.get k an ≡ some m → get_hash_id hash_pub_key m.node ≡ k)
      → get_hash_id hash_pub_key n.node ≡ h
      → (k : ℕ) (m : LocalNode) → HashMap.get k (HashMap.insert h n an) ≡ some m
      → get_hash_id hash_pub_key m.node ≡ k
  IsKeyed-insert an h n w e k m g = elim (Bool-cases (h == k)) [
    | inl same ↦ ground (arith, get-insert h k n an)
    | inr other ↦ w k m (ground (arith, get-insert h k n an))
  ]

  apply-IsValid :
      (r : NodeRepository) (node : Node)
      → IsValid r
      → IsKeyed r
      → IsValid (apply hash_pub_key r node).0 × IsKeyed (apply hash_pub_key r node).0
  unfolding apply
  apply-IsValid r node v w =
      let h = get_hash_id hash_pub_key node in
      elim (Option-cases (HashMap.get h r.available_nodes)) [
        | inl e ↦ rw (e, apply) (v, w)
        | inr (n, e) ↦
            rw (e, apply)
              (if_elim (λ (o : NodeRepository × Bool). IsValid o.0 × IsKeyed o.0)
                (not (node_beq n.node node)) _ _
                (λ _. (
                  record {
                    listed = λ j.
                        let a = v.listed j in
                        ground (arith, get-insert h j (record n { node = node }) r.available_nodes);
                    sorted =
                        Falls-cong (score_of r.available_nodes) _ r.sorted_nodes
                          (λ j p.
                            ground
                              (arith, get-insert h j (record n { node = node }) r.available_nodes))
                          v.sorted;
                  },
                  IsKeyed-insert r.available_nodes h (record n { node = node }) w refl,
                ))
                (λ _. (v, w)))
      ]

  -- Updating or adding a node keeps the repository valid and every node under its hash.
  pub new_node-IsValid :
      (r : NodeRepository) (node : Node)
      → IsValid r
      → IsKeyed r
      → IsValid (new_node hash_pub_key r node) × IsKeyed (new_node hash_pub_key r node)
  unfolding new_node
  new_node-IsValid r node v w =
      let h = get_hash_id hash_pub_key node in
      let an = r.available_nodes in
      if_elim (λ (q : NodeRepository). IsValid q × IsKeyed q) (HashMap.contains_key h an) _ _
        (λ _. apply-IsValid r node v w)
        (λ absent. (
          record {
            listed = λ j.
                let a = v.listed j in
                ground (
                  arith,
                  count-append j r.sorted_nodes (h ∷ []),
                  get-insert h j (local_node node) an,
                );
            sorted =
                Falls-append (score_of (HashMap.insert h (local_node node) an)) h r.sorted_nodes
                  (unfold local_node in ground (arith, get-insert h h (local_node node) an))
                  (Falls-cong (score_of an) _ r.sorted_nodes
                    (λ j p.
                      let a = v.listed j in ground (arith, get-insert h j (local_node node) an))
                    v.sorted);
          },
          IsKeyed-insert an h (local_node node) w (unfold local_node in refl),
        ))

  -- The empty repository is valid.
  pub new-IsValid : IsValid (new hash_pub_key) × IsKeyed (new hash_pub_key)
  unfolding new build
  new-IsValid = (record { listed = λ k. refl; sorted = tt }, λ k n h. ground arith)
