-- ===== src/Database/Ancestor.antt =====
-- The search for the latest common ancestor of two blocks and for the head of the chain
-- (core/src/record_keeper/database.rs). The loops have fuel: `none` is a run that has used it up.
use blockscape.HashMap
use blockscape.HashMap.{HashMap}
use blockscape.Database.Store.{Action, pure, ◌>>=◌}
use blockscape.Database.Chain.{ChainExternals, get_block_header, get_blocks_of_height}
use blockscape.Base.{
  ℕ, zero, suc, ◌+◌, ◌%◌, ◌^◌, Bool, not, ◌&&◌, Option, none, some, [], ◌∷◌, nat_eq, ◌==◌,
  if◌then◌else◌,
}

abbrev pub Paths : Type 0
Paths = HashMap ℕ ℕ × HashMap ℕ ℕ × ℕ × ℕ

-- The condition of the loop.
abbrev goes_on : HashMap ℕ ℕ → HashMap ℕ ℕ → ℕ → ℕ → Bool
goes_on a b last_a last_b =
    not (HashMap.contains_key last_b a)
    && not (HashMap.contains_key last_a b)
    && not (last_a == 0 && last_b == 0)

module _ (ex : ChainExternals) where
  -- One side of the search, extended by one block.
  abbrev extend : HashMap ℕ ℕ → ℕ → ℕ → Action (HashMap ℕ ℕ × ℕ)
  extend m last dist =
      if last == 0
      then pure (m, last)
      else get_block_header ex last >>= λ header.
          pure (HashMap.insert header.prev dist m, header.prev)

  unfoldable pub search : ℕ → HashMap ℕ ℕ → HashMap ℕ ℕ → ℕ → ℕ → ℕ → Action (Option Paths)
  search zero a b last_a last_b dist = pure none
  search (suc fuel) a b last_a last_b dist =
      let rest = extend a last_a dist >>= λ side_a. extend b last_b dist >>= λ side_b.
      search fuel side_a.0 side_b.0 side_a.1 side_b.1 ((dist + 1) % 2 ^ 64) in
      if goes_on a b last_a last_b then rest else pure (some (a, b, last_a, last_b))

  unfoldable pub latest_common_ancestor : ℕ → ℕ → ℕ → Action (Option Paths)
  unfolding search
  latest_common_ancestor fuel hash_a hash_b =
      search fuel ((hash_a, 0) ∷ []) ((hash_b, 0) ∷ []) hash_a hash_b 1

  -- The loop of `find_chain_head` at a height and with the choice so far.
  unfoldable pub climb : ℕ → ℕ → ℕ → Action (Option ℕ)
  climb zero height choice = pure none
  climb (suc fuel) height choice = get_blocks_of_height ex ((height + 1) % 2 ^ 64) >>= λ blocks.
      elim blocks [ [] ↦ pure (some choice) | hash ∷ _ ↦ climb fuel ((height + 1) % 2 ^ 64) hash ]

  unfoldable pub find_chain_head : ℕ → Action (Option ℕ)
  unfolding climb
  find_chain_head fuel db = climb fuel db.head_height db.head_block db

-- `intersect_dist`; `none` is a panic.
abbrev either : Option ℕ → Option ℕ → Option ℕ
either (some d) other = some d
either none other = other

unfoldable pub intersect_dist : HashMap ℕ ℕ → HashMap ℕ ℕ → ℕ → ℕ → Option ℕ × Option ℕ
intersect_dist a b last_a last_b = (
  either (HashMap.get last_b a) (HashMap.get last_a a),
  either (HashMap.get last_a b) (HashMap.get last_b b),
)
