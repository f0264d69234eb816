-- ===== src/Database/Walk/Laws.antt =====
-- What a walk returns.
use Prim.Native.Nat.{min}
use blockscape.BTreeMap.{BTreeMap}
use blockscape.Mutation.{earliest_game_event}
use blockscape.Database.Store.{assert, Database}
use blockscape.Database.Returns.{Post, Returns, Returns-pure, Returns-bind, Returns-after}
use blockscape.Database.Chain.{
  get_block_header, get_contra, ChainExternals, get_block, get_block_mutation, add_contra,
  update_current_chain, update_current_block,
}
use blockscape.Database.Mutate.{mutate, undo_mutate}
use blockscape.Database.Walk.{walk, walk_from, calculate_block_path, walk_along, walk_up, walk_down}
use blockscape.Base.{
  ℕ, ◌+◌, ◌-◌, ◌^◌, ◌%◌, ◌≡◌, ◌≢◌, refl, reverse, Option, none, some, List, [], ◌∷◌, arith, false,
  not, ◌==◌, nat_eq,
}

abbrev IsZero : ℕ → Type 0
IsZero t = t ≡ 0

-- The earliest tick that a walk returns is zero.
abbrev pub IsUntimed : Option (ℕ × ℕ) → Type 0
IsUntimed none = Unit
IsUntimed (some (n, t)) = t ≡ 0

module _ (ex : ChainExternals) where
  -- A way up or down that starts with the tick zero, as the source's do, returns zero.
  walk_up-IsZero :
      (path : List (ℕ × ℕ)) (tick : ℕ) → tick ≡ 0 → Returns IsZero (walk_up ex path tick)
  walk_up-IsZero [] tick h = Returns-pure IsZero h
  walk_up-IsZero ((k, b) ∷ path) tick h = Returns-bind IsZero (get_block ex b) _ λ block.
      Returns-bind IsZero (get_block_mutation ex block) _ λ mutation.
        Returns-bind IsZero (mutate ex.base mutation) _ λ contra.
          Returns-bind IsZero (add_contra ex b contra) _ λ _.
            Returns-bind IsZero (update_current_chain ex k b) _ λ _.
              Returns-bind IsZero (update_current_block ex b (some k)) _
                λ _. walk_up-IsZero path (min tick (earliest_game_event mutation)) (omega arith)

  walk_down-IsZero :
      (path : List (ℕ × ℕ)) (tick : ℕ) → tick ≡ 0 → Returns IsZero (walk_down ex path tick)
  walk_down-IsZero [] tick h = Returns-pure IsZero h
  walk_down-IsZero ((k, b) ∷ path) tick h = Returns-bind IsZero (get_block_header ex b) _ λ header.
      Returns-bind IsZero (get_contra ex b) _ λ contra.
        Returns-bind IsZero (undo_mutate ex.base contra) _ λ _.
          Returns-bind IsZero
            (update_current_block ex header.prev (some ((k + (2 ^ 64 - 1)) % 2 ^ 64))) _
            λ _. walk_down-IsZero path (min tick (earliest_game_event contra)) (omega arith)

  walk_along-IsUntimed :
      (path : Option (BTreeMap ℕ × BTreeMap ℕ)) → Returns IsUntimed (walk_along ex path)
  walk_along-IsUntimed none = Returns-pure IsUntimed tt
  walk_along-IsUntimed (some (downs, ups)) =
      Returns-after IsZero IsUntimed (walk_down ex (reverse downs) 0) _
        (walk_down-IsZero (reverse downs) 0 refl)
        λ tick h.
          Returns-after IsZero IsUntimed (walk_up ex ups tick) _ (walk_up-IsZero ups tick h)
            λ t k. Returns-pure IsUntimed k

  walk_from-IsUntimed :
      (fuel b_block a_block : ℕ) → Returns IsUntimed (walk_from ex fuel a_block b_block)
  walk_from-IsUntimed fuel b_block a_block =
      Returns-bind IsUntimed (assert (not (b_block == 0))) _ λ _.
        Returns-bind IsUntimed (calculate_block_path ex fuel a_block b_block) _ walk_along-IsUntimed

  -- A walk to another block than the current one that returns says that the earliest tick which
  -- it invalidates is zero, whatever events the blocks hold.
  pub walk-IsUntimed :
      (fuel b_block : ℕ) (db : Database)
      → db.head_block ≢ b_block
      → Post IsUntimed (walk ex fuel b_block db).0
  unfolding walk Returns
  walk-IsUntimed fuel b_block db other =
      let differs : (db.head_block == b_block) ≡ false = ground arith in
      rw differs (walk_from-IsUntimed fuel b_block db.head_block db)
