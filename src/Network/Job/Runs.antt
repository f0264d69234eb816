-- ===== src/Network/Job/Runs.antt =====
-- A synchronisation through all the answers to it (`complete` of core/src/network/job.rs).
use blockscape.Network.Message.{
  Block, BlockHeader, Message, introduce, ping, pong, find_nodes, node_list, new_transaction,
  new_block, broadcast, sync_blocks, query_data, chain_data, spot_chain_data, bye, data_error,
}
use blockscape.Network.Job.{NetworkJob, calculate_hash, complete, brought, sync_answer}
use blockscape.Network.Job.Laws.{syncing}
use blockscape.Base.{
  ℕ, ◌+◌, ◌≤◌, ◌≡◌, refl, ap, ◌∙◌, inl, inr, Bool, false, ◌||◌, Option, none, some, List, [], ◌∷◌,
  ltb, nat_eq, ◌==◌, Bin, if◌then◌else◌, Bool-cases, arith,
}

-- How many of the answers are not data of the chain.
abbrev pub failures : List Message → ℕ
failures [] = 0
failures (chain_data hash pkg ∷ msgs) = failures msgs
failures (_ ∷ msgs) = failures msgs + 1

-- Data of the chain up to the goal is among the answers.
abbrev pub reaches : ℕ → List Message → Bool
reaches goal [] = false
reaches goal (chain_data hash pkg ∷ msgs) = hash == goal || reaches goal msgs
reaches goal (_ ∷ msgs) = reaches goal msgs

-- The block up to which the last data of the chain goes.
abbrev pub last_block : ℕ → List Message → ℕ
last_block cur [] = cur
last_block cur (chain_data hash pkg ∷ msgs) = last_block hash msgs
last_block cur (_ ∷ msgs) = last_block cur msgs

module _ (hash_header : BlockHeader → ℕ) (has_shard : ℕ → Bool) (limit : ℕ) where
  -- The job that is left after the answers, each to the job that the one before has left.
  abbrev pub run : List Message → Option NetworkJob → ℕ → Option NetworkJob
  run [] job syncs = job
  run (msg ∷ msgs) none syncs = none
  run (msg ∷ msgs) (some job) syncs =
      let (next, contacts, syncs') = complete hash_header has_shard limit job msg syncs in
      run msgs next syncs'

  run-none : (msgs : List Message) (syncs : ℕ) → run msgs none syncs ≡ none
  run-none [] syncs = refl
  run-none (msg ∷ msgs) syncs = refl

  -- What is left of a synchronisation with that many failures, at that block.
  abbrev left : Bool → ℕ → Block → ℕ → Option NetworkJob
  left ended try target cur = if ended || ltb 3 try then none else some (syncing try target cur)

  -- An answer that is not data of the chain.
  record IsOther (msg : Message) : Type 0 where
    no_data : brought msg ≡ none
    counts : (msgs : List Message) → failures (msg ∷ msgs) ≡ failures msgs + 1
    passes : (goal : ℕ) (msgs : List Message) → reaches goal (msg ∷ msgs) ≡ reaches goal msgs
    stays : (cur : ℕ) (msgs : List Message) → last_block cur (msg ∷ msgs) ≡ last_block cur msgs

  data Answer : Message → Type 0 where
    with_data :
        (hash : ℕ) (pkg : Bin)
        → brought (chain_data hash pkg) ≡ some hash
        → Answer (chain_data hash pkg)
    without_data : {msg : Message} → IsOther msg → Answer msg

  other :
      {msg : Message}
      → brought msg ≡ none
      → ((msgs : List Message) → failures (msg ∷ msgs) ≡ failures msgs + 1)
      → ((goal : ℕ) (msgs : List Message) → reaches goal (msg ∷ msgs) ≡ reaches goal msgs)
      → ((cur : ℕ) (msgs : List Message) → last_block cur (msg ∷ msgs) ≡ last_block cur msgs)
      → Answer msg
  other b f r l = without_data (record { no_data = b; counts = f; passes = r; stays = l })

  answer_of : (msg : Message) → Answer msg
  answer_of (chain_data hash pkg) = with_data hash pkg refl
  answer_of (introduce n node port) = other refl (λ m. refl) (λ g m. refl) λ c m. refl
  answer_of (ping time) = other refl (λ m. refl) (λ g m. refl) λ c m. refl
  answer_of (pong time) = other refl (λ m. refl) (λ g m. refl) λ c m. refl
  answer_of (find_nodes n k) = other refl (λ m. refl) (λ g m. refl) λ c m. refl
  answer_of (node_list nodes n k) = other refl (λ m. refl) (λ g m. refl) λ c m. refl
  answer_of (new_transaction txn) = other refl (λ m. refl) (λ g m. refl) λ c m. refl
  answer_of (new_block block) = other refl (λ m. refl) (λ g m. refl) λ c m. refl
  answer_of (broadcast id payload) = other refl (λ m. refl) (λ g m. refl) λ c m. refl
  answer_of (sync_blocks last target) = other refl (λ m. refl) (λ g m. refl) λ c m. refl
  answer_of (query_data hashes) = other refl (λ m. refl) (λ g m. refl) λ c m. refl
  answer_of (spot_chain_data blocks txns) = other refl (λ m. refl) (λ g m. refl) λ c m. refl
  answer_of (bye reason) = other refl (λ m. refl) (λ g m. refl) λ c m. refl
  answer_of (data_error e) = other refl (λ m. refl) (λ g m. refl) λ c m. refl

  run_step :
      (msg : Message) (msgs : List Message) (job : NetworkJob) (next : Option NetworkJob)
      (syncs : ℕ)
      → (complete hash_header has_shard limit job msg syncs).0 ≡ next
      → run (msg ∷ msgs) (some job) syncs
        ≡ run msgs next (complete hash_header has_shard limit job msg syncs).2
  run_step msg msgs job next syncs h =
      ap (λ n. run msgs n (complete hash_header has_shard limit job msg syncs).2) h

  at_answer :
      (try : ℕ) (target : Block) (cur : ℕ) (msg : Message) (o : Option ℕ) (syncs : ℕ)
      → brought msg ≡ o
      → (complete hash_header has_shard limit (syncing try target cur) msg syncs).0
        ≡ (sync_answer hash_header target cur o (syncing try target cur) syncs).0
  unfolding complete
  at_answer try target cur msg o syncs h =
      ap (λ b. (sync_answer hash_header target cur b (syncing try target cur) syncs).0) h

  more_failures :
      {msg : Message}
      → IsOther msg
      → (try : ℕ) (target : Block) (cur : ℕ) (msgs : List Message)
      → left
          (reaches (calculate_hash hash_header target) msgs)
          (try + 1 + failures msgs)
          target
          (last_block cur msgs)
        ≡ left
            (reaches (calculate_hash hash_header target) (msg ∷ msgs))
            (try + failures (msg ∷ msgs))
            target
            (last_block cur (msg ∷ msgs))
  more_failures o try target cur msgs =
      rw (o.counts msgs, o.passes (calculate_hash hash_header target) msgs, o.stays cur msgs)
        (ap
          (λ n.
            left (reaches (calculate_hash hash_header target) msgs) n target (last_block cur msgs))
          (omega arith))

  -- What `run_lem` says of the answers.
  abbrev Ends : List Message → Type 0
  Ends msgs =
      (try : ℕ) (target : Block) (cur syncs : ℕ)
      → try ≤ 3
      → run msgs (some (syncing try target cur)) syncs
        ≡ left (reaches (calculate_hash hash_header target) msgs) (try + failures msgs) target
            (last_block cur msgs)

  step-Ends : {msg : Message} → Answer msg → (msgs : List Message) → Ends msgs → Ends (msg ∷ msgs)
  step-Ends (with_data hash pkg b) msgs rest try target cur syncs h =
      let job = syncing try target cur in
      let end = at_answer try target cur (chain_data hash pkg) (some hash) syncs b in
      elim (Bool-cases (hash == calculate_hash hash_header target)) [
        | inl e ↦
            run_step (chain_data hash pkg) msgs job none syncs (end ∙ ground (arith, e))
            ∙ run-none msgs _
            ∙ ground (arith, e)
        | inr e ↦
            run_step (chain_data hash pkg) msgs job (some (syncing try target hash)) syncs
              (end ∙ ground (arith, e, h))
            ∙ rest try target hash _ h
            ∙ ground (arith, e)
      ]
  step-Ends {msg} (without_data o) msgs rest try target cur syncs h =
      let job = syncing try target cur in
      let end = at_answer try target cur msg none syncs o.no_data in
      let goal = calculate_hash hash_header target in
      elim (Bool-cases (try == 3)) [
        | inl e ↦
            run_step msg msgs job none syncs (end ∙ ground (arith, e))
            ∙ run-none msgs _
            ∙ ground (arith, e, o.counts msgs)
        | inr e ↦
            run_step msg msgs job (some (syncing (try + 1) target cur)) syncs
              (end ∙ ground (arith, e, h))
            ∙ rest (try + 1) target cur _ (ground arith)
            ∙ more_failures o try target cur msgs
      ]

  all-Ends : (msgs : List Message) → Ends msgs
  all-Ends [] try target cur syncs h = ground arith
  all-Ends (msg ∷ msgs) try target cur syncs h =
      step-Ends (answer_of msg) msgs (all-Ends msgs) try target cur syncs h

  -- The answers to a synchronisation that has failed at most three times leave nothing of it exactly
  -- if they have data of the chain up to its target, or if its failures, with one for each answer
  -- that is no such data, are more than three. Otherwise they leave the synchronisation with these
  -- failures, at the block up to which the last data goes.
  pub run_lem :
      (msgs : List Message) (try : ℕ) (target : Block) (cur syncs : ℕ)
      → try ≤ 3
      → run msgs (some (syncing try target cur)) syncs ≡ (
          if reaches (calculate_hash hash_header target) msgs || ltb 3 (try + failures msgs)
          then none
          else some (syncing (try + failures msgs) target (last_block cur msgs)))
  run_lem = all-Ends
