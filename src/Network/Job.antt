-- ===== src/Network/Job.antt =====
-- Jobs of fetching data from a peer (core/src/network/job.rs). `ACTIVE_SYNCS`, the counter of the
-- thread, is passed along: a call takes it and returns it last. The hash of a block header is a
-- parameter. To open a session is I/O: `complete` returns the nodes to which it opens one.
pub mod Laws
pub mod Runs
use blockscape.Nodes.{Node}
use blockscape.Network.Message.{
  Block, BlockHeader, Message, sync_blocks, chain_data, data_error, node_list,
}
use blockscape.Base.{
  ℕ, zero, suc, ◌+◌, ◌-◌, ◌%◌, ◌^◌, Bool, true, false, Option, none, some, List, [], ◌∷◌, ltb,
  nat_eq, ◌==◌, if◌then◌else◌,
}

pub data NetworkJobData : Type 0 where
  sync_chain : Block → ℕ → NetworkJobData
  find_nodes : ℕ → NetworkJobData

pub record NetworkJob : Type 0 where
  pub try : ℕ
  pub job_data : NetworkJobData

abbrev pub max_job_retries : ℕ
max_job_retries = 3

-- Whether a job counts as an active synchronisation.
abbrev pub is_sync : NetworkJobData → Bool
is_sync (sync_chain target cur) = true
is_sync (NetworkJobData.find_nodes id) = false

abbrev count_up : NetworkJobData → ℕ → ℕ
count_up d syncs = if is_sync d then syncs + 1 else syncs

-- `NetworkJob::new`
unfoldable pub new : NetworkJobData → ℕ → NetworkJob × ℕ
new d syncs = (record { try = 0; job_data = d }, count_up d syncs)

-- `Clone`
unfoldable pub clone : NetworkJob → ℕ → NetworkJob × ℕ
clone job syncs = (job, count_up job.job_data syncs)

-- `Drop`; the counter is a `usize`, which wraps.
unfoldable pub drop : NetworkJob → ℕ → ℕ
drop job syncs = if is_sync job.job_data then (syncs + (2 ^ 64 - 1)) % 2 ^ 64 else syncs

unfoldable pub chain_sync_exists : ℕ → Bool
chain_sync_exists syncs = ltb 0 syncs

-- `iter().take(n)`
abbrev take : {A : Type 0} → ℕ → List A → List A
take zero xs = []
take (suc n) [] = []
take (suc n) (x ∷ xs) = x ∷ take n xs

-- The block up to which an answer brings data. Any other answer is a failure.
abbrev pub brought : Message → Option ℕ
brought (chain_data hash _) = some hash
brought _ = none

module _ (hash_header : BlockHeader → ℕ) where
  abbrev pub calculate_hash : Block → ℕ
  calculate_hash b = hash_header b.header

  unfoldable pub make_req : NetworkJob → Message
  make_req job = elim job.job_data [
    | find_nodes id ↦ Message.find_nodes id 0
    | sync_chain target last ↦ sync_blocks last (calculate_hash target)
  ]

  -- `augment`: the job, updated, and whether the other one is a duplicate.
  unfoldable pub augment_data : NetworkJobData → NetworkJobData → NetworkJobData × Bool
  augment_data (sync_chain target cur) (sync_chain other _) =
      if calculate_hash target == calculate_hash other
      then (sync_chain target cur, true)
      else if calculate_hash target == other.header.prev
      then (sync_chain other cur, true)
      else (sync_chain target cur, false)
  augment_data d _ = (d, false)

  unfoldable pub augment : NetworkJob → NetworkJob → NetworkJob × Bool
  unfolding augment_data
  augment job other =
      let (d, duplicate) = augment_data job.job_data other.job_data in
      (record job { job_data = d }, duplicate)

  -- The end of a synchronisation that goes on with `try` failures and at the block `cur`: the new
  -- job is counted, and the old one is dropped.
  abbrev pub go_on : Block → ℕ → ℕ → NetworkJob → ℕ → Option NetworkJob × ℕ
  go_on target cur try old syncs =
      if ltb max_job_retries try
      then (none, drop old syncs)
      else (some (record { try = try; job_data = sync_chain target cur }), drop old (syncs + 1))

  -- A synchronisation at an answer.
  abbrev pub sync_answer : Block → ℕ → Option ℕ → NetworkJob → ℕ → Option NetworkJob × ℕ
  sync_answer target cur (some hash) old syncs =
      if hash == calculate_hash target
      then (none, drop old syncs)
      else go_on target hash old.try old syncs
  sync_answer target cur none old syncs = go_on target cur (old.try + 1) old syncs

  -- The nodes of an answer to which sessions are opened.
  abbrev contacts : Bool → ℕ → Message → List Node
  contacts true limit (node_list nodes _ _) = take limit nodes
  contacts _ limit _ = []

  -- `complete`. The limit is `max_nodes - min_nodes`, and `has_shard` says which networks the node
  -- takes part in.
  unfoldable pub complete :
      (ℕ → Bool) → ℕ → NetworkJob → Message → ℕ → Option NetworkJob × List Node × ℕ
  unfolding drop
  complete has_shard limit job msg syncs = elim job.job_data [
    | sync_chain target cur ↦
        let (next, syncs') = sync_answer target cur (brought msg) job syncs in (next, [], syncs')
    | find_nodes id ↦ (none, contacts (has_shard id) limit msg, syncs)
  ]
