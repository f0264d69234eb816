-- ===== src/Tests/Repository.antt =====
-- Examples of the repository of nodes; the hash of a key is its length.
use blockscape.HashMap
use blockscape.Nodes.{
  NodeRepository, Node, LocalNode, tcp, local_node, new, new_node, up_score, down_score, remove,
  get_nodes, get_hash_id, build, resort,
}
use blockscape.Nodes.Invariant.{IsValid, IsKeyed, new-IsValid, new_node-IsValid, score-IsValid}
use blockscape.Nodes.Query.{get_nodes_best}
use blockscape.Base.{ℕ, ◌≤◌, ◌≡◌, refl, some, [], ◌∷◌, Bin, length, nat_eq}

abbrev hash : Bin → ℕ
hash = length

abbrev node : Bin → Node
node k = record {
  endpoint = record { protocol = tcp; host = 8 ∷ []; port = 80 };
  key = k;
  version = 1;
  name = 7 ∷ [];
}

abbrev n1 : Node
n1 = node (1 ∷ [])

abbrev n2 : Node
n2 = node (1 ∷ 2 ∷ [])

abbrev one : NodeRepository
one = new_node hash (new hash) n1

abbrev two : NodeRepository
two = (up_score (new_node hash one n2) 2).0

one-IsValid : IsValid one × IsKeyed hash one
one-IsValid = new_node-IsValid hash (new hash) n1 (new-IsValid hash).0 (new-IsValid hash).1

two-IsValid : IsValid two
two-IsValid =
    (score-IsValid (new_node hash one n2) 2
      ((new_node-IsValid hash one n2 one-IsValid.0 one-IsValid.1).0)).0

score-IsValid_example :
    IsValid (up_score two 1).0 × IsValid (down_score two 1).0 × IsValid (remove two 1)
score-IsValid_example = score-IsValid two 1 two-IsValid

get_nodes_best_example :
    (j : ℕ) × (best : LocalNode) × (HashMap.get j two.available_nodes ≡ some best)
    × (get_nodes two 0 ≡ some best.node)
    × (0 ≤ best.score)
unfolding new_node up_score build new resort local_node get_hash_id
get_nodes_best_example = get_nodes_best two 1 (local_node n1) two-IsValid refl
