-- ===== src/Database/Blocks.antt =====
-- The iterators along the chain, and the methods that list blocks by them
-- (core/src/record_keeper/database.rs). An iterator's state is a height or a hash; after an error
-- it stays where it is, and each loop here ends at an error. Logging is left out.
pub mod Bounds
use blockscape.Network.Message.{BlockHeader}
use blockscape.Database.Store.{Database, Action, ok, err, panic, pure, ◌>>=◌}
use blockscape.Database.Chain.{
  ChainExternals, get_block_header, get_current_block_of_height, get_block_height,
  is_part_of_current_chain, or_panic,
}
use blockscape.Base.{
  ℕ, zero, suc, ◌+◌, ◌-◌, ◌%◌, ◌^◌, Bool, true, false, ◌||◌, Option, none, some, List, [], ◌∷◌,
  ◌++◌, reverse, length, leb, nat_eq, ◌==◌, if◌then◌else◌,
}

-- What an iterator gives with its next state, or its end.
abbrev pub Step : Type 0
Step = Option ((ℕ × BlockHeader) × ℕ)

-- `take_while(Result::is_ok).map(Result::unwrap)`
abbrev pub until_error : Action Step → Action Step
until_error m db =
    let (r, db') = m db in
    elim r [ ok a ↦ (ok a, db') | err e ↦ (ok none, db') | panic ↦ (panic, db') ]

-- A step that is skipped, from a state: an error leaves the state, and so does the end.
abbrev skip_one : Action Step → ℕ → Action ℕ
skip_one m state db =
    let (r, db') = m db in
    elim r [
      | ok step ↦ elim step [ none ↦ (ok state, db') | some (_, next) ↦ (ok next, db') ]
      | err e ↦ (ok state, db')
      | panic ↦ (panic, db')
    ]

-- `uncle_blocks.get(0)`
abbrev first_hash : (BlockHeader → ℕ) → ℕ → List BlockHeader → ℕ
first_hash hash_header target [] = target
first_hash hash_header target (h ∷ hs) = hash_header h

module _ (ex : ChainExternals) where
  abbrev up_to : ℕ → ℕ → Action Step
  up_to height hash = do
    header ← get_block_header ex hash
    pure (some ((hash, header), (height + 1) % 2 ^ 64))

  -- `UpIter::next`
  unfoldable pub next_up : ℕ → Action Step
  unfolding get_current_block_of_height
  next_up height db =
      if leb height db.head_height
      then (get_current_block_of_height ex height >>= up_to height) db
      else pure none db

  abbrev down_to : ℕ → Action Step
  down_to hash = do header ← get_block_header ex hash; pure (some ((hash, header), header.prev))

  -- `DownIter::next`
  unfoldable pub next_down : ℕ → Action Step
  next_down hash = if hash == 0 then pure none else down_to hash

  -- The iterator of `get_latest_blocks` at a hash.
  abbrev latest_from : ℕ → ℕ → Action (List BlockHeader)
  latest_from zero hash = pure []
  latest_from (suc count) hash = next_down hash >>= λ step. elim step [
    | none ↦ pure []
    | some ((_, header), next) ↦ do headers ← latest_from count next; pure (header ∷ headers)
  ]

  unfoldable pub get_latest_blocks : ℕ → Action (List BlockHeader)
  get_latest_blocks count db = latest_from count db.head_block db

  -- A block that is not the last known one, nor on the current chain, is listed before `rest`.
  abbrev pub list_unless :
      BlockHeader → Action (List BlockHeader) → Bool → Action (List BlockHeader)
  list_unless header rest true = pure []
  list_unless header rest false = rest >>= λ blocks. pure (header ∷ blocks)

  abbrev pub before_at : ℕ → (ℕ → Action (List BlockHeader)) → Step → Action (List BlockHeader)
  before_at last_known rest none = pure []
  before_at last_known rest (some ((h, header), next)) =
      is_part_of_current_chain ex h >>= λ in_cur_chain.
      list_unless header (rest next) (h == last_known || in_cur_chain)

  -- The loop of `_get_blocks_before` at a hash.
  abbrev pub before_from : ℕ → ℕ → ℕ → Action (List BlockHeader)
  before_from zero last_known hash = pure []
  before_from (suc limit) last_known hash =
      until_error (next_down hash) >>= before_at last_known (before_from limit last_known)

  unfoldable pub get_blocks_before : ℕ → ℕ → ℕ → Action (List BlockHeader)
  get_blocks_before target last_known limit = do
    blocks ← before_from limit last_known target
    pure (reverse blocks)

  -- The loop of `_get_blocks_after` at a height.
  abbrev after_from : ℕ → ℕ → ℕ → Action (List BlockHeader)
  after_from zero target height = pure []
  after_from (suc limit) target height = until_error (next_up height) >>= λ step. elim step [
    | none ↦ pure []
    | some ((h, header), next) ↦ elim (h == target) [
      | true ↦ pure (header ∷ [])
      | false ↦ after_from limit target next >>= λ rest. pure (header ∷ rest)
    ]
  ]

  -- `skip(1).take(limit)`: nothing is skipped before the first block is asked for.
  abbrev skip_then : ℕ → ℕ → ℕ → Action (List BlockHeader)
  skip_then zero target height = pure []
  skip_then (suc limit) target height =
      skip_one (next_up height) height >>= after_from (suc limit) target

  -- The loop has fuel: `none` is a run that has used it up. Running off the chain is
  -- `unreachable!`.
  unfoldable pub ancestor_with_current_chain : ℕ → ℕ → Action (Option ℕ)
  ancestor_with_current_chain zero hash = pure none
  ancestor_with_current_chain (suc fuel) hash = next_down hash >>= λ step. elim step [
    | none ↦ or_panic none
    | some ((h, header), next) ↦ is_part_of_current_chain ex h >>= λ member. elim member [
      | true ↦ pure (some h)
      | false ↦ ancestor_with_current_chain fuel next
    ]
  ]

  unfoldable pub get_blocks_after : ℕ → ℕ → ℕ → ℕ → Action (Option (List BlockHeader))
  unfolding ancestor_with_current_chain
  get_blocks_after fuel last_known target limit =
      ancestor_with_current_chain fuel last_known >>= λ r. elim r [
        | none ↦ pure none
        | some ancestor ↦ do
          height ← get_block_height ex ancestor
          blocks ← skip_then limit target height
          pure (some blocks)
      ]

  -- The blocks on the current chain before those of an uncle's.
  abbrev with_uncles : ℕ → ℕ → ℕ → ℕ → List BlockHeader → Action (Option (List BlockHeader))
  with_uncles fuel last_known target limit uncles =
      get_blocks_after fuel last_known (first_hash ex.hash_header target uncles)
        (limit - length uncles)
      >>= λ r. elim r [ none ↦ pure none | some chain ↦ pure (some (chain ++ uncles)) ]

  unfoldable pub get_blocks_between : ℕ → ℕ → ℕ → ℕ → Action (Option (List BlockHeader))
  unfolding get_blocks_after get_blocks_before
  get_blocks_between fuel last_known target limit = is_part_of_current_chain ex target >>= λ member.
      elim member [
        | true ↦ get_blocks_after fuel last_known target limit
        | false ↦
            get_blocks_before target last_known limit >>= with_uncles fuel last_known target limit
      ]
