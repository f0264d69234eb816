-- ===== src/Network/Job/Laws.antt =====
-- The counter of synchronisations, the number of retries, and which jobs are taken together.
use blockscape.Network.Message.{Block, BlockHeader, Message}
use blockscape.Network.Job.{
  NetworkJob, NetworkJobData, sync_chain, find_nodes, drop, is_sync, calculate_hash, complete,
  augment, augment_data, go_on, sync_answer, brought,
}
use blockscape.Base.{
  ℕ, ◌+◌, ◌-◌, ◌^◌, ◌≤◌, ◌<◌, ◌≡◌, ◌↔◌, ◌⊎◌, inl, inr, refl, Bool, true, Option, none, some, nat_eq,
  ◌==◌, if◌then◌else◌, Bool-cases, arith,
}

-- What a job counts, and what an optional one does.
abbrev pub weight : NetworkJob → ℕ
weight job = if is_sync job.job_data then 1 else 0

abbrev pub weight_of : Option NetworkJob → ℕ
weight_of none = 0
weight_of (some job) = weight job

-- A synchronisation with that many failures, target and block reached.
abbrev pub syncing : ℕ → Block → ℕ → NetworkJob
syncing try target cur = record { try = try; job_data = sync_chain target cur }

module _ (hash_header : BlockHeader → ℕ) where
  go_on-weight :
      (target : Block) (cur try : ℕ) (old : NetworkJob) (syncs : ℕ)
      → syncs < 2 ^ 64 - 1
      → 0 < syncs
      → is_sync old.job_data ≡ true
      → let r = go_on hash_header target cur try old syncs in r.1 + 1 ≡ syncs + weight_of r.0
  unfolding drop
  go_on-weight target cur try old syncs h p s = ground arith

  sync_answer-weight :
      (target : Block) (cur : ℕ) (answer : Option ℕ) (old : NetworkJob) (syncs : ℕ)
      → syncs < 2 ^ 64 - 1
      → 0 < syncs
      → is_sync old.job_data ≡ true
      → let r = sync_answer hash_header target cur answer old syncs in
        r.1 + 1 ≡ syncs + weight_of r.0
  unfolding drop
  sync_answer-weight target cur (some hash) old syncs h p s = ground arith
  sync_answer-weight target cur none old syncs h p s = ground arith

  complete_data-weight :
      (has_shard : ℕ → Bool) (limit try : ℕ) (d : NetworkJobData) (msg : Message) (syncs : ℕ)
      → weight (record { try = try; job_data = d }) ≤ syncs
      → syncs < 2 ^ 64 - 1
      → let (next, contacts, syncs') =
          complete hash_header has_shard limit (record { try = try; job_data = d }) msg syncs in
        syncs' + weight (record { try = try; job_data = d }) ≡ syncs + weight_of next
  unfolding complete
  complete_data-weight has_shard limit try (sync_chain target cur) msg syncs w h =
      sync_answer-weight target cur (brought msg)
        (record { try = try; job_data = sync_chain target cur }) syncs h (omega arith) refl
  complete_data-weight has_shard limit try (find_nodes id) msg syncs w h = omega arith

  -- Completing a job, whatever the answer, changes the counter of synchronisations exactly by the
  -- job that ends and the one that goes on, where the counter has counted the job before and is
  -- not at the top of its range.
  pub complete-weight :
      (has_shard : ℕ → Bool) (limit : ℕ) (job : NetworkJob) (msg : Message) (syncs : ℕ)
      → weight job ≤ syncs
      → syncs < 2 ^ 64 - 1
      → let (next, contacts, syncs') = complete hash_header has_shard limit job msg syncs in
        syncs' + weight job ≡ syncs + weight_of next
  complete-weight has_shard limit job msg syncs w h =
      complete_data-weight has_shard limit job.try job.job_data msg syncs w h

  -- A job is taken together with another exactly when both are synchronisations and the other's
  -- target is its own or follows it directly; then the target is the other's, by its hash.
  pub augment_lem :
      (n m : ℕ) (t o : Block) (c d : ℕ)
      → let r = augment hash_header (syncing n t c) (syncing m o d) in
        ((r.1 ≡ true) ↔ (
          (calculate_hash hash_header t ≡ calculate_hash hash_header o)
          ⊎ (calculate_hash hash_header t ≡ o.header.prev)))
        × (r.0.try ≡ n)
        × ((b : Block) × (r.0.job_data ≡ sync_chain b c)
            × (calculate_hash hash_header b
                ≡ (if r.1 then calculate_hash hash_header o else calculate_hash hash_header t)))
  unfolding augment augment_data
  augment_lem n m t o c d =
      elim (Bool-cases (calculate_hash hash_header t == calculate_hash hash_header o)) [
        | inl e ↦ (ground arith, refl, (t, ground arith, ground arith))
        | inr e ↦ elim (Bool-cases (calculate_hash hash_header t == o.header.prev)) [
          | inl g ↦ (ground arith, refl, (o, ground arith, ground arith))
          | inr g ↦ (ground arith, refl, (t, ground arith, ground arith))
        ]
      ]
