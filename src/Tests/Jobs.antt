-- ===== src/Tests/Jobs.antt =====
-- Examples of jobs; the hash of a header is its time stamp.
use blockscape.Network.Message.{
  Block, BlockHeader, Message, chain_data, pong, data_error, rate_exceeded,
}
use blockscape.Network.Job.Laws.{syncing, weight, weight_of, complete-weight}
use blockscape.Network.Job.{complete}
use blockscape.Network.Job.Runs.{run, run_lem}
use blockscape.Base.{ℕ, ◌+◌, ◌≡◌, List, true, some, [], ◌∷◌, nat_eq, arith}
use blockscape.Base.Int.{pos, pos_part}

abbrev hash : BlockHeader → ℕ
hash h = pos_part h.timestamp

abbrev block : ℕ → ℕ → Block
block time prev = record {
  header = record {
    version = 1;
    timestamp = pos time;
    shard = 0;
    prev = prev;
    merkle_root = 0;
    blob = [];
  };
  txns = [];
}

abbrev first : Block
first = block 5 4

abbrev second : Block
second = block 6 5

-- A failure, data up to the block before, and another failure.
abbrev answers : List Message
answers = pong (pos 1) ∷ chain_data 4 (1 ∷ []) ∷ data_error rate_exceeded ∷ []

run_lem_example :
    run hash (λ id. true) 8 answers (some (syncing 1 first 3)) 1 ≡ some (syncing 3 first 4)
run_lem_example = run_lem hash (λ id. true) 8 answers 1 first 3 1 (omega arith)

complete-weight_example :
    let (next, contacts, syncs') =
      complete hash (λ id. true) 8 (syncing 2 first 3) (chain_data 4 (1 ∷ [])) 1 in
    syncs' + weight (syncing 2 first 3) ≡ 1 + weight_of next
complete-weight_example =
    complete-weight hash (λ id. true) 8 (syncing 2 first 3) (chain_data 4 (1 ∷ [])) 1 (omega arith)
      (omega arith)
