-- ===== src/Tests/Chains.antt =====
-- Examples of the block chain part of the database.
use blockscape.Database.Store.{Database}
use blockscape.Database.Chain.{ChainExternals}
use blockscape.Base.{none, some, []}
use blockscape.Tests.Codecs.{sample_externals}

-- The other values are not read in the examples.
abbrev pub sample_chain : ChainExternals
sample_chain = record {
  base = sample_externals;
  header = record { serialize = λ h. h.blob; deserialize = λ b. none };
  hashes = record { serialize = λ l. l; deserialize = λ b. some b };
  txns = record { serialize = λ t. t.signature; deserialize = λ b. none };
  time = record { serialize = λ t. []; deserialize = λ b. none };
  mutations = record { serialize = λ m. []; deserialize = λ b. none };
  head = record { serialize = λ h. []; deserialize = λ b. none };
  hash_header = λ h. h.prev;
  hash_txn = λ t. t.creator;
}

abbrev empty : Database
empty = record { rows = λ k. none; head_block = 0; head_height = 0 }
