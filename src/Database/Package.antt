-- ===== src/Database/Package.antt =====
-- Packages of blocks with their transactions (core/src/record_keeper/block_package.rs). Compression
-- and `bincode` of a whole package are left out (`zip`, `unzip`).
pub mod Numbering
pub mod Unpack
use blockscape.HashMap
use blockscape.HashMap.{HashMap}
use blockscape.Mutation.{calculate_size}
use blockscape.Network.Message.{BlockHeader, Block, Txn}
use blockscape.Database.Store.{Action, pure, ◌>>=◌}
use blockscape.Database.Chain.{ChainExternals, complete_block, get_txn, or_panic}
use blockscape.Database.Blocks.{get_blocks_between}
use blockscape.Base.{
  ℕ, ◌+◌, ◌*◌, ◌/◌, ◌%◌, ◌^◌, Bool, true, false, Option, none, some, List, [], ◌∷◌, ◌++◌, map,
  length, get_elem?, ltb, leb, nat_eq, ◌==◌, if◌then◌else◌,
}

pub record BlockPackage : Type 0 where
  pub blocks : List (BlockHeader × List ℕ)
  pub txns : List Txn

abbrev pub new_empty : BlockPackage
new_empty = record { blocks = []; txns = [] }

-- `Txn::calculate_size`
abbrev pub txn_size : Txn → ℕ
txn_size t = 8 + 20 + calculate_size t.mutation + (length t.signature + 1)

-- The loop that numbers the transactions; `none` is a failed assertion.
abbrev pub index_txns : List ℕ → HashMap ℕ ℕ → ℕ → Option (HashMap ℕ ℕ × ℕ)
index_txns [] by_hash count = some (by_hash, count)
index_txns (t ∷ ts) by_hash count = elim (HashMap.contains_key t by_hash) [
  | true ↦ index_txns ts by_hash count
  | false ↦ elim (ltb count 0xffff) [
    | true ↦ index_txns ts (HashMap.insert t count by_hash) (count + 1)
    | false ↦ none
  ]
]

abbrev pub index_blocks : List Block → HashMap ℕ ℕ → ℕ → Option (HashMap ℕ ℕ × ℕ)
index_blocks [] by_hash count = some (by_hash, count)
index_blocks (b ∷ bs) by_hash count = elim (index_txns b.txns by_hash count) [
  | none ↦ none
  | some (by_hash', count') ↦ index_blocks bs by_hash' count'
]

-- What the loop over the transactions of a block leaves.
pub record Packing : Type 0 where
  pub txn_indicies : List ℕ
  pub new_txns : List Txn
  pub count : ℕ
  pub size : ℕ

module _ (ex : ChainExternals) where
  abbrev pub complete_blocks : List BlockHeader → Action (List Block)
  complete_blocks [] = pure []
  complete_blocks (header ∷ headers) = do
    block ← complete_block ex header
    blocks ← complete_blocks headers
    pure (block ∷ blocks)

  -- A transaction at its index: one that is not packed yet is read and packed.
  abbrev pub pack_at : ℕ → (ℕ → ℕ → Action Packing) → ℕ → ℕ → ℕ → Bool → Action Packing
  pack_at t rest count size index true = do
    full_txn ← get_txn ex t
    p ← rest ((count + 1) % 2 ^ 16) ((size + txn_size full_txn) % 2 ^ 64)
    pure (record p { txn_indicies = index ∷ p.txn_indicies; new_txns = full_txn ∷ p.new_txns })
  pack_at t rest count size index false = do
    p ← rest count size
    pure (record p { txn_indicies = index ∷ p.txn_indicies })

  abbrev pub pack_txns : HashMap ℕ ℕ → List ℕ → ℕ → ℕ → Action Packing
  pack_txns by_hash [] count size =
      pure (record { txn_indicies = []; new_txns = []; count = count; size = size })
  pack_txns by_hash (t ∷ ts) count size = or_panic (HashMap.get t by_hash) >>= λ index.
      pack_at t (pack_txns by_hash ts) count size index (index == count)

  -- The size of a header with the indices of its transactions.
  abbrev pub block_size : Block → ℕ
  block_size b = length (ex.header.serialize b.header) + (length b.txns + 1) * 2

  abbrev pub push_block :
      Block → (ℕ → ℕ → Action BlockPackage) → Packing → Bool → Action BlockPackage
  push_block b rest p true = do
    pkg ← rest p.count p.size
    pure
        (record { blocks = (b.header, p.txn_indicies) ∷ pkg.blocks; txns = p.new_txns ++ pkg.txns })
  push_block b rest p false = pure new_empty

  abbrev pub pack_blocks : HashMap ℕ ℕ → ℕ → List Block → ℕ → ℕ → Action BlockPackage
  pack_blocks by_hash limit [] count size = pure new_empty
  pack_blocks by_hash limit (b ∷ bs) count size =
      pack_txns by_hash b.txns count ((size + block_size b) % 2 ^ 64) >>= λ p.
      push_block b (pack_blocks by_hash limit bs) p (leb p.size limit)

  unfoldable pub package_headers : List BlockHeader → ℕ → Action BlockPackage
  package_headers headers limit = do
    blocks ← complete_blocks headers
    index ← or_panic (index_blocks blocks [] 0)
    pack_blocks index.0 limit blocks 0 0

  abbrev package_if_found : ℕ → Option (List BlockHeader) → Action (Option BlockPackage)
  package_if_found limit none = pure none
  package_if_found limit (some blocks) = do pkg ← package_headers blocks limit; pure (some pkg)

  -- The search in `get_blocks_between` has fuel: `none` is a run that has used it up.
  unfoldable pub blocks_between : ℕ → ℕ → ℕ → ℕ → Action (Option BlockPackage)
  unfolding package_headers
  blocks_between fuel last_known target limit =
      get_blocks_between ex fuel last_known target (limit / 128) >>= package_if_found limit

-- The hashes at the indices, less those out of range.
abbrev pub picked : List ℕ → List ℕ → List ℕ
picked hashes [] = []
picked hashes (i ∷ is) = elim (get_elem? hashes i) [
  | none ↦ picked hashes is
  | some h ↦ h ∷ picked hashes is
]

abbrev pub unpack_block : List ℕ → BlockHeader × List ℕ → Block
unpack_block hashes (header, txn_list) = record { header = header; txns = picked hashes txn_list }

-- `collect` of the transactions.
abbrev collect_txns : (Txn → ℕ) → List Txn → HashMap ℕ Txn → HashMap ℕ Txn
collect_txns hash_txn [] m = m
collect_txns hash_txn (t ∷ ts) m = collect_txns hash_txn ts (HashMap.insert (hash_txn t) t m)

unfoldable pub unpack : (Txn → ℕ) → BlockPackage → List Block × HashMap ℕ Txn
unpack hash_txn p =
    (map (unpack_block (map hash_txn p.txns)) p.blocks, collect_txns hash_txn p.txns [])

-- The last block; `none` is a panic.
abbrev last : List (BlockHeader × List ℕ) → Option (BlockHeader × List ℕ)
last [] = none
last (b ∷ []) = some b
last (b ∷ c ∷ bs) = last (c ∷ bs)

unfoldable pub last_hash : (BlockHeader → ℕ) → BlockPackage → Option ℕ
last_hash hash_header p = elim (last p.blocks) [ none ↦ none | some b ↦ some (hash_header b.0) ]

unfoldable pub starts_at : BlockPackage → Option ℕ
starts_at p = elim p.blocks [ [] ↦ none | b ∷ _ ↦ some b.0.prev ]

unfoldable pub is_empty : BlockPackage → Bool
is_empty p = elim p.txns [ [] ↦ elim p.blocks [ [] ↦ true | _ ↦ false ] | _ ↦ false ]
