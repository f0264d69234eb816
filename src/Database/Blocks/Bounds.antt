-- ===== src/Database/Blocks/Bounds.antt =====
-- How many blocks the listing before a block returns.
use blockscape.Network.Message.{BlockHeader}
use blockscape.Database.Store.{Database, Action, pure}
use blockscape.Database.Returns.{Post, Returns, Returns-pure, Returns-bind, Returns-after}
use blockscape.Database.Chain.{ChainExternals, is_part_of_current_chain}
use blockscape.Database.Blocks.{
  Step, list_unless, before_at, before_from, get_blocks_before, next_down, until_error,
}
use mathlib.Core.Path.{subst}
use blockscape.Base.{
  ℕ, zero, suc, ◌≤◌, Bool, true, false, none, some, List, [], ◌∷◌, reverse, length, length-reverse,
  sym, arith, ◌==◌, nat_eq, ◌||◌,
}

-- A list of blocks within the limit.
abbrev pub IsWithin : ℕ → List BlockHeader → Type 0
IsWithin limit blocks = length blocks ≤ limit

module _ (ex : ChainExternals) where
  list_unless-IsWithin :
      (limit : ℕ) (header : BlockHeader) (rest : Action (List BlockHeader)) (known : Bool)
      → Returns (IsWithin limit) rest
      → Returns (IsWithin (suc limit)) (list_unless ex header rest known)
  list_unless-IsWithin limit header rest true h =
      Returns-pure (IsWithin (suc limit)) {a = []} (omega arith)
  list_unless-IsWithin limit header rest false h =
      Returns-after (IsWithin limit) (IsWithin (suc limit)) rest _ h
        λ blocks k. Returns-pure (IsWithin (suc limit)) {a = header ∷ blocks} (omega arith)

  before_at-IsWithin :
      (limit last_known : ℕ) (rest : ℕ → Action (List BlockHeader)) (step : Step)
      → ((next : ℕ) → Returns (IsWithin limit) (rest next))
      → Returns (IsWithin (suc limit)) (before_at ex last_known rest step)
  before_at-IsWithin limit last_known rest none h =
      Returns-pure (IsWithin (suc limit)) {a = []} (omega arith)
  before_at-IsWithin limit last_known rest (some ((hash, header), next)) h =
      Returns-bind (IsWithin (suc limit)) (is_part_of_current_chain ex hash) _ λ member.
        list_unless-IsWithin limit header (rest next) (hash == last_known || member) (h next)

  before_from-IsWithin :
      (limit last_known hash : ℕ) → Returns (IsWithin limit) (before_from ex limit last_known hash)
  before_from-IsWithin zero last_known hash = Returns-pure (IsWithin zero) {a = []} (omega arith)
  before_from-IsWithin (suc limit) last_known hash =
      Returns-bind (IsWithin (suc limit)) (until_error (next_down ex hash)) _ λ step.
        before_at-IsWithin limit last_known (before_from ex limit last_known) step
          (before_from-IsWithin limit last_known)

  -- The blocks before a block are at most as many as the limit, so that what `get_blocks_between`
  -- takes off its limit for them never wraps.
  pub get_blocks_before-IsWithin :
      (target last_known limit : ℕ) (db : Database)
      → Post (IsWithin limit) (get_blocks_before ex target last_known limit db).0
  unfolding get_blocks_before Returns
  get_blocks_before-IsWithin target last_known limit db =
      Returns-after (IsWithin limit) (IsWithin limit) (before_from ex limit last_known target)
        (λ blocks. pure (reverse blocks)) (before_from-IsWithin limit last_known target)
        (λ blocks k.
          Returns-pure (IsWithin limit) {a = reverse blocks}
            (subst (λ n. n ≤ limit) (sym (length-reverse blocks)) k))
        db
