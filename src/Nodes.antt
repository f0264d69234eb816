-- ===== src/Nodes.antt =====
-- The repository of known nodes (core/src/network/node.rs). The hash of a public key is a
-- parameter, `U160` identities are numbers, texts are their bytes. Reading and writing the file of
-- nodes (`save`, `load`) is left out. A method that changes the repository returns it, with its
-- flag where it has one.
pub mod Sort
pub mod Invariant
pub mod Query
use blockscape.HashMap
use blockscape.HashMap.{HashMap}
use blockscape.Base.{
  ℕ, zero, suc, ◌+◌, ◌/◌, ◌%◌, ◌^◌, Bool, true, false, not, ◌&&◌, Option, none, some, List, [], ◌∷◌,
  ◌++◌, map, Bin, get_elem?, length, ltb, leb, nat_eq, list_eq, ◌==◌, retain_ne, if◌then◌else◌,
}

pub data Protocol : Type 0 where
  tcp udp : Protocol

pub record NodeEndpoint : Type 0 where
  pub protocol : Protocol
  pub host : Bin
  pub port : ℕ

pub record Node : Type 0 where
  pub endpoint : NodeEndpoint
  pub key : Bin
  pub version : ℕ
  pub name : Bin

pub record LocalNode : Type 0 where
  pub node : Node
  pub score : ℕ

abbrev protocol_beq : Protocol → Protocol → Bool
protocol_beq tcp tcp = true
protocol_beq udp udp = true
protocol_beq _ _ = false

-- `#[derive(PartialEq)]`
unfoldable pub node_beq : Node → Node → Bool
node_beq a b =
    protocol_beq a.endpoint.protocol b.endpoint.protocol
    && a.endpoint.host == b.endpoint.host
    && a.endpoint.port == b.endpoint.port
    && a.key == b.key
    && a.version == b.version
    && a.name == b.name

pub record NodeRepository : Type 0 where
  pub available_nodes : HashMap ℕ LocalNode
  pub sorted_nodes : List ℕ
  pub changes : ℕ

abbrev pub saved_nodes_count : ℕ
saved_nodes_count = 100

-- `LocalNode::new`
unfoldable pub local_node : Node → LocalNode
local_node node = record { node = node; score = 0 }

-- The score by which nodes are sorted; a node that is not there, where the source panics, has none.
abbrev pub score_of : HashMap ℕ LocalNode → ℕ → ℕ
score_of an k = elim (HashMap.get k an) [ none ↦ 0 | some n ↦ n.score ]

-- Insertion before the first node of a lower score: a stable sort by descending score.
unfoldable pub insert_by : (ℕ → ℕ) → ℕ → List ℕ → List ℕ
insert_by f k [] = k ∷ []
insert_by f k (j ∷ l) =
    let rest = insert_by f k l in if leb (f j) (f k) then k ∷ j ∷ l else j ∷ rest

unfoldable pub sort_by : (ℕ → ℕ) → List ℕ → List ℕ
unfolding insert_by
sort_by f [] = []
sort_by f (k ∷ l) = insert_by f k (sort_by f l)

unfoldable pub resort : NodeRepository → NodeRepository
unfolding sort_by
resort r = record r { sorted_nodes = sort_by (score_of r.available_nodes) r.sorted_nodes }

unfoldable pub len : NodeRepository → ℕ
len r = length r.sorted_nodes

-- `get_nodes`; `none` is its panic, on an empty repository.
unfoldable pub get_nodes : NodeRepository → ℕ → Option Node
get_nodes r idx = elim (get_elem? r.sorted_nodes (idx % length r.sorted_nodes)) [
  | none ↦ none
  | some k ↦ elim (HashMap.get k r.available_nodes) [ none ↦ none | some n ↦ some n.node ]
]

unfoldable pub get : NodeRepository → ℕ → Option Node
get r k = elim (HashMap.get k r.available_nodes) [ none ↦ none | some n ↦ some n.node ]

unfoldable pub remove : NodeRepository → ℕ → NodeRepository
remove r k =
    if HashMap.contains_key k r.available_nodes
    then record {
      available_nodes = HashMap.remove k r.available_nodes;
      sorted_nodes = retain_ne k r.sorted_nodes;
      changes = r.changes + 1;
    }
    else r

-- A node's score is set, the nodes are sorted anew, and the change is counted.
abbrev rescored : NodeRepository → ℕ → LocalNode → ℕ → NodeRepository
rescored r k n score =
    let r' = resort (record r {
      available_nodes = HashMap.insert k (record n { score = score }) r.available_nodes;
    }) in
    record r' { changes = r'.changes + 1 }

-- The score is a `u16`, which wraps.
unfoldable pub up_score : NodeRepository → ℕ → NodeRepository × Bool
unfolding resort
up_score r k = elim (HashMap.get k r.available_nodes) [
  | none ↦ (r, false)
  | some n ↦ (rescored r k n ((n.score + 1) % 2 ^ 16), true)
]

unfoldable pub down_score : NodeRepository → ℕ → NodeRepository × Bool
unfolding resort
down_score r k = elim (HashMap.get k r.available_nodes) [
  | none ↦ (r, false)
  | some n ↦ if ltb 0 n.score then (rescored r k n (n.score / 2), true) else (r, false)
]

module _ (hash_pub_key : Bin → ℕ) where
  unfoldable pub get_hash_id : Node → ℕ
  get_hash_id n = hash_pub_key n.key

  unfoldable pub apply : NodeRepository → Node → NodeRepository × Bool
  unfolding get_hash_id
  apply r node = elim (HashMap.get (get_hash_id node) r.available_nodes) [
    | none ↦ (r, false)
    | some n ↦
        if not (node_beq n.node node)
        then (
          record r {
            available_nodes =
                HashMap.insert (get_hash_id node) (record n { node = node }) r.available_nodes;
            changes = r.changes + 1;
          },
          true,
        )
        else (r, false)
  ]

  unfoldable pub new_node : NodeRepository → Node → NodeRepository
  unfolding get_hash_id apply local_node
  new_node r node =
      let hpk = get_hash_id node in
      if HashMap.contains_key hpk r.available_nodes then (apply r node).0 else record {
        available_nodes = HashMap.insert hpk (local_node node) r.available_nodes;
        sorted_nodes = r.sorted_nodes ++ hpk ∷ [];
        changes = r.changes + 1;
      }

  -- The loop of `build` over the nodes.
  unfoldable pub import_nodes : List LocalNode → NodeRepository → NodeRepository
  unfolding get_hash_id
  import_nodes [] r = r
  import_nodes (n ∷ nodes) r = import_nodes nodes (record r {
    available_nodes = HashMap.insert (get_hash_id n.node) n r.available_nodes;
    sorted_nodes = r.sorted_nodes ++ get_hash_id n.node ∷ [];
  })

  unfoldable pub build : NodeRepository → List LocalNode → NodeRepository
  unfolding import_nodes resort
  build r [] = record r { available_nodes = []; sorted_nodes = [] }
  build r (n ∷ nodes) =
      let r' =
        resort (import_nodes (n ∷ nodes) (record r { available_nodes = []; sorted_nodes = [] })) in
      record r' { changes = r'.changes + 1 }

  abbrev first_values : ℕ → HashMap ℕ LocalNode → List LocalNode
  first_values zero m = []
  first_values (suc k) [] = []
  first_values (suc k) ((_, n) ∷ m) = n ∷ first_values k m

  unfoldable pub trim : NodeRepository → NodeRepository
  unfolding build
  trim r = build r (first_values saved_nodes_count r.available_nodes)

  unfoldable pub new : NodeRepository
  unfolding build
  new = build (record { available_nodes = []; sorted_nodes = []; changes = 0 }) []
