-- ===== src/Tests/Packages.antt =====
-- Examples of packages of blocks.
use blockscape.Network.Message.{BlockHeader, Block, Txn}
use blockscape.Mutation.{new}
use blockscape.Database.Store.{Database, ok, get_raw}
use blockscape.Database.Chain.{ChainExternals, complete_block, get_txn}
use blockscape.Database.Returns.{Gives}
use blockscape.Database.Package.{BlockPackage, complete_blocks, package_headers, unpack}
use blockscape.Database.Package.Numbering.{AllStored}
use blockscape.Database.Package.Unpack.{AllBlocksStored, unpack-package_headers}
use blockscape.Base.{
  ℕ, zero, suc, ◌-◌, ◌^◌, ◌≤◌, ◌≡◌, refl, some, List, [], ◌∷◌, ◌++◌, length, arith,
}
use blockscape.Base.Int.{pos}
use blockscape.Tests.Chains.{sample_chain}

abbrev down : ℕ → List ℕ
down zero = []
down (suc n) = suc n ∷ down n

abbrev txn_of : ℕ → Txn
txn_of n = record { timestamp = pos 0; creator = n; mutation = new; signature = [] }

-- Every row holds its key, and the values are read from its length.
abbrev sample : ChainExternals
sample = record sample_chain {
  hashes = record { serialize = λ l. l; deserialize = λ b. some (down (length b - 2)) };
  txns = record { serialize = λ t. []; deserialize = λ b. some (txn_of (length b - 2)) };
}

abbrev mirror : Database
mirror = record { rows = λ k. some k; head_block = 0; head_height = 0 }

abbrev header_of : ℕ → BlockHeader
header_of n = record {
  version = 1;
  timestamp = pos 0;
  shard = 0;
  prev = 0;
  merkle_root = n;
  blob = [];
}

-- The second block repeats the transactions of the first.
abbrev headers : List BlockHeader
headers = header_of 1 ∷ header_of 3 ∷ []

abbrev blocks : List Block
blocks =
    record { header = header_of 1; txns = 1 ∷ [] }
    ∷ record { header = header_of 3; txns = 3 ∷ 2 ∷ 1 ∷ [] }
    ∷ []

complete : complete_blocks sample headers mirror ≡ (ok blocks, mirror)
unfolding get_raw complete_block
complete = refl

all_stored : AllBlocksStored sample mirror blocks
unfolding Gives get_txn get_raw
all_stored =
    let one : AllStored sample mirror (1 ∷ []) = ((txn_of 1, refl, refl), tt) in
    (one, (((txn_of 3, refl, refl), ((txn_of 2, refl, refl), one)), tt))

unpack-package_headers_example :
    (pkg : BlockPackage) × (package_headers sample headers 1000 mirror ≡ (ok pkg, mirror))
    × (rest : List Block) × ((unpack sample.hash_txn pkg).0 ++ rest ≡ blocks)
    × (2 ^ 64 ≤ 1001 → rest ≡ [])
unpack-package_headers_example =
    unpack-package_headers sample mirror headers blocks 1000 complete all_stored (omega arith)
