-- ===== src/Forging/Evaluate.antt =====
-- Forging: `evaluate_block`, `propagate_block` and `create` (core/src/forging/epos.rs). The state
-- is what the context shares under locks; a method takes it and returns it last. Timers, sent
-- broadcasts and submitted blocks are listed in it.
use blockscape.Network.Message.{Block}
use blockscape.Database.Store
use blockscape.Forging.{
  EposConfig, EposBlockData, Externals, Keeper, Forged, ok, err, panic, no_stake, bad_blob,
  bad_difficulty, ◌>>=◌, unwrap, or_err, of_result, low_u64, gen_wait, apply_block,
  get_relevant_validation_data, with_blob,
}
use blockscape.Forging.Difficulty.{calculate_validator_info, calculate_expected_difficulty}
use blockscape.Base.{
  ℕ, ◌+◌, ◌%◌, ◌^◌, Bool, true, false, ◌||◌, Option, none, some, List, [], ◌∷◌, ◌++◌, Bin, length,
  ltb, nat_eq, ◌==◌, if◌then◌else◌,
}
use blockscape.Base.Int.{ℤ, pos, ltb_ℤ}
use blockscape.Base.Words.{add_i64, neg_i64, as_i64, as_usize}

pub data ForgeEffect : Type 0 where
  timer : ℕ → ForgeEffect
  send_broadcast : ℕ → Block → ForgeEffect
  submitted : Block → ForgeEffect

-- `best_block` has the number of signatures needed, the block, and when to propagate it;
-- `on_block` says whether somebody waits for a block.
pub record EposContext : Type 0 where
  pub best_block : Option (ℕ × Block × ℕ)
  pub on_block : Bool
  pub effects : List ForgeEffect

abbrev pub effect : ForgeEffect → EposContext → EposContext
effect e s = record s { effects = s.effects ++ e ∷ [] }

module _ (x : Externals) (rk : Keeper) (config : EposConfig) where
  -- The block with the expected difficulty, or the reason why it is not forged on.
  abbrev pub check_blob : Bin → Block → ℕ → Forged Block
  check_blob [] block diff =
      ok (with_blob x block (x.data_coder.serialize (record { difficulty = diff; sigs = [] })))
  check_blob (b ∷ blob) block diff = or_err bad_blob (x.data_coder.deserialize (b ∷ blob)) >>= λ d.
      if d.difficulty == diff then ok block else err bad_difficulty

  abbrev pub better : Block × ℕ → Option (Block × ℕ) → Block × ℕ
  better new none = new
  better new (some best) = if ltb new.1 best.1 then new else best

  -- The block signed by a key, and its wait.
  abbrev pub sign_by : Block → ℕ → ℕ → ℕ → ℕ → Forged (Block × ℕ)
  sign_by block diff target stake key = do
    signed ← apply_block x block diff target key
    actual ← get_relevant_validation_data x signed.1
    w ← gen_wait config diff stake (low_u64 target) (low_u64 actual.1)
    ok (signed.0, w)

  -- The key with a stake that finds the block the fastest.
  unfoldable pub best_key :
      Block → ℕ → ℕ → List (ℕ × ℕ) → Option (Block × ℕ) → Forged (Option (Block × ℕ))
  unfolding apply_block get_relevant_validation_data gen_wait
  best_key block diff target [] cur_best = ok cur_best
  best_key block diff target (k ∷ keys) cur_best =
      let skipped = best_key block diff target keys cur_best in
      of_result no_stake (rk.get_validator_stake k.0) >>= λ stake.
      if stake == 0
      then skipped
      else (sign_by block diff target stake k.1 >>= λ new.
          best_key block diff target keys (some (better new cur_best)))

  -- `block.timestamp.millis() as u64 + best.1`
  abbrev pub dispatch_time : Block → ℕ → ℕ
  dispatch_time block wait = (as_usize block.header.timestamp + wait) % 2 ^ 64

  abbrev pub the_wait : ℕ → ℤ → ℕ
  the_wait disp now =
      let left = add_i64 (as_i64 disp) (neg_i64 now) in
      if ltb_ℤ left (pos 10) then 10 else as_usize left

  abbrev pub set_best : ℕ → Block → ℕ → ℤ → EposContext → EposContext
  set_best req best disp now s =
      effect (timer (the_wait disp now)) (record s { best_block = some (req, best, disp) })

  -- The height of the block before, or a panic.
  abbrev pub expect_height : Block → Forged ℕ
  expect_height block = unwrap (elim (rk.get_block_height block.header.prev) [
    | Store.ok h ↦ some h
    | Store.err e ↦ none
    | Store.panic ↦ none
  ])

  -- Whether the new block replaces the one at hand, by its height or by its time.
  abbrev pub replace_best :
      Block → ℕ → Block → ℕ → ℤ → ℕ × Block × ℕ → EposContext → Forged EposContext
  replace_best block req best disp now pb s = do
    new_height ← expect_height block
    old_height ← expect_height pb.1
    if ltb old_height new_height || ltb disp pb.0 then ok (set_best req best disp now s) else ok s

  abbrev pub offer_to :
      Block → ℕ → Block → ℕ → ℤ → Option (ℕ × Block × ℕ) → EposContext → Forged EposContext
  offer_to block req best disp now none s = ok (set_best req best disp now s)
  offer_to block req best disp now (some pb) s = replace_best block req best disp now pb s

  abbrev pub offer : Block → ℕ → Option (Block × ℕ) → ℤ → EposContext → Forged EposContext
  offer block req none now s = ok s
  offer block req (some best) now s =
      offer_to block req best.0 (dispatch_time block best.1) now s.best_block s

  -- `evaluate_block`; an error is the result `false`, which leaves the state as it was.
  unfoldable pub evaluate_block : List (ℕ × ℕ) → Block → ℤ → EposContext → Forged EposContext
  unfolding best_key calculate_validator_info calculate_expected_difficulty add_i64 neg_i64 as_i64
      as_usize
  evaluate_block keys block now s = do
    info ← calculate_validator_info x rk config block.header.prev
    diff ← calculate_expected_difficulty x rk config block
    checked ← check_blob block.header.blob block diff
    best ← best_key checked diff info.0 keys none
    offer checked info.1 best now s

  -- The state after a call whose error is only a flag; a panic is `none`.
  abbrev pub keep_state : EposContext → Forged EposContext → Option EposContext
  keep_state s (ok t) = some t
  keep_state s (err e) = some s
  keep_state s panic = none

  -- `create`
  unfoldable pub create : List (ℕ × ℕ) → Block → ℤ → EposContext → Option EposContext
  unfolding evaluate_block
  create keys block now s =
      let waiting = record s { on_block = true } in
      keep_state waiting (evaluate_block keys block now waiting)

  abbrev pub receive_decoded : List (ℕ × ℕ) → Option Block → ℤ → EposContext → Option EposContext
  receive_decoded keys none now s = some s
  receive_decoded keys (some block) now s = keep_state s (evaluate_block keys block now s)

  -- `receive_broadcast`, which never passes a broadcast on by itself.
  unfoldable pub receive_broadcast :
      (Bin → Option Block) → List (ℕ × ℕ) → Bin → ℤ → EposContext → Option (EposContext × Bool)
  unfolding evaluate_block
  receive_broadcast decode keys payload now s = elim (receive_decoded keys (decode payload) now s) [
    | none ↦ none
    | some t ↦ some (t, false)
  ]

  -- A complete block is handed to who waits for it, if somebody does.
  abbrev pub submit : Block → EposContext → EposContext
  submit block s =
      if s.on_block then effect (submitted block) (record s { on_block = false }) else s

  abbrev pub pass_on : ℕ → Block → EposBlockData → EposContext → EposContext
  pass_on req block d s =
      if ltb (length d.sigs) req
      then effect (send_broadcast block.header.shard block) s
      else submit block s

  -- `propagate_block`
  abbrev pub propagate : Option (ℕ × Block × ℕ) → ℤ → EposContext → Forged EposContext
  propagate none now s = ok (record s { best_block = none })
  propagate (some b) now s =
      if ltb ((as_usize now + 10) % 2 ^ 64) b.2
      then ok s
      else (unwrap (x.data_coder.deserialize b.1.header.blob) >>= λ d.
          ok (record (pass_on b.0 b.1 d s) { best_block = none }))

  unfoldable pub propagate_block : ℤ → EposContext → Forged EposContext
  unfolding as_usize
  propagate_block now s = propagate s.best_block now s
