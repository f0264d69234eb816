-- ===== src/Forging/Accepted.antt =====
-- What a block has that validation accepts.
use blockscape.Network.Message.{Block, BlockHeader}
use blockscape.Database.Store
use blockscape.Forging.{
  EposConfig, EposBlockData, Externals, Keeper, Forged, ok, err, panic, ForgeError, no_block,
  bad_blob, bad_difficulty, bad_count, bad_signatures, bad_timestamp, too_early, ◌>>=◌, or_err,
  of_result, check_sigs,
}
use blockscape.Forging.Difficulty.{calculate_validator_info, calculate_expected_difficulty}
use blockscape.Forging.Validate.{
  validate, check_diff, check_info, check_data, check_wait, check_time, total_wait, require, expect,
  info_or, reason,
}
use blockscape.Base.{
  ℕ, ◌+◌, ◌%◌, ◌^◌, ◌≡◌, refl, sym, ap, ◌∙◌, Bool, true, false, Option, none, some, length, nat_eq,
  ◌==◌, if◌then◌else◌, arith,
}
use blockscape.Base.Int.{ℤ, ltb_ℤ}
use blockscape.Base.Words.{as_usize}

pub bind_ok :
    {A B : Type 0} (m : Forged A) (f : A → Forged B) (b : B)
    → (m >>= f) ≡ ok b
    → (a : A) × (m ≡ ok a) × (f a ≡ ok b)
bind_ok (ok a) f b h = (a, refl, h)
bind_ok (err e) f b h = absurd (cc)
bind_ok panic f b h = absurd (cc)

require_then :
    (x : Externals) (rk : Keeper) (config : EposConfig) (t : Bool) (e : ForgeError)
    (k : Unit {0} → Forged (Unit {0}))
    → (require x rk config t e >>= k) ≡ ok tt
    → (t ≡ true) × (k tt ≡ ok tt)
require_then x rk config true e k h = (refl, h)
require_then x rk config false e k h = absurd (cc)

expect_ok :
    (x : Externals) (rk : Keeper) (config : EposConfig) (r : Forged ℕ) (d : ℕ)
    → expect x rk config r ≡ ok d
    → r ≡ ok d
expect_ok x rk config (ok e) d h = h
expect_ok x rk config (err e) d h = absurd (cc)
expect_ok x rk config panic d h = absurd (cc)

info_ok :
    (x : Externals) (rk : Keeper) (config : EposConfig) (r : Forged (ℕ × ℕ)) (i : ℕ × ℕ)
    → info_or x rk config r ≡ ok i
    → r ≡ ok i
info_ok x rk config (ok e) i h = h
info_ok x rk config (err e) i h = absurd (cc)
info_ok x rk config panic i h = absurd (cc)

pub or_err_ok :
    {A : Type 0} (e : ForgeError) (o : Option A) (a : A) → or_err e o ≡ ok a → o ≡ some a
or_err_ok e none a h = absurd (cc)
or_err_ok e (some b) a h = ground arith

of_result_ok :
    {A : Type 0} (e : ForgeError) (r : Store.Result A) (a : A)
    → of_result e r ≡ ok a
    → r ≡ Store.ok a
of_result_ok e (Store.ok b) a h = ground arith
of_result_ok e (Store.err b) a h = absurd (cc)
of_result_ok e Store.panic a h = absurd (cc)

reason_ok :
    (x : Externals) (rk : Keeper) (config : EposConfig) (r : Forged (Unit {0}))
    → reason x rk config r ≡ ok none
    → r ≡ ok tt
reason_ok x rk config (ok u) h = refl
reason_ok x rk config (err e) h = absurd (cc)
reason_ok x rk config panic h = absurd (cc)

module _ (x : Externals) (rk : Keeper) (config : EposConfig) (block : Block) (now : ℤ) where
  -- What an accepted block has.
  pub record IsAccepted : Type 0 where
    pub blob : EposBlockData
    pub target : ℕ
    pub count : ℕ
    pub wait : ℕ
    pub prev_block : BlockHeader
    pub decoded : x.data_coder.deserialize block.header.blob ≡ some blob
    pub difficulty : calculate_expected_difficulty x rk config block ≡ ok blob.difficulty
    pub info : calculate_validator_info x rk config block.header.prev ≡ ok (target, count)
    pub enough : length blob.sigs ≡ count
    pub signed : check_sigs x blob target ≡ true
    pub waited : total_wait x rk config blob.difficulty target blob.sigs 0 ≡ ok wait
    pub follows : rk.get_block_header block.header.prev ≡ Store.ok prev_block
    pub at_time : as_usize block.header.timestamp ≡ (as_usize prev_block.timestamp + wait) % 2 ^ 64
    pub past : ltb_ℤ now block.header.timestamp ≡ false

  -- A block that validation accepts can be decoded, has the expected difficulty and the number of
  -- signatures needed, all of which are verified, comes exactly the waits of its signatures after
  -- the block before it, and is not later than the time of the validation.
  pub validate-IsAccepted : validate x rk config block now ≡ ok none → IsAccepted
  unfolding validate
  validate-IsAccepted h =
      let (diff, d, h2) =
        bind_ok (expect x rk config (calculate_expected_difficulty x rk config block))
          (check_diff x rk config block now) tt (reason_ok x rk config _ h) in
      let (info, i, h3) =
        bind_ok (info_or x rk config (calculate_validator_info x rk config block.header.prev))
          (check_info x rk config block now diff) tt h2 in
      let (blob, b, h4) =
        bind_ok (or_err bad_blob (x.data_coder.deserialize block.header.blob))
          (check_data x rk config block now diff info) tt h3 in
      let same = require_then x rk config (blob.difficulty == diff) bad_difficulty _ h4 in
      let enough = require_then x rk config (length blob.sigs == info.1) bad_count _ same.1 in
      let signed = require_then x rk config (check_sigs x blob info.0) bad_signatures _ enough.1 in
      let (wait, w, h5) =
        bind_ok (total_wait x rk config diff info.0 blob.sigs 0) (check_wait x rk config block now)
          tt signed.1 in
      let (prev, p, h6) =
        bind_ok (of_result no_block (rk.get_block_header block.header.prev))
          (check_time x rk config block now wait) tt h5 in
      let timed =
        require_then x rk config
          (as_usize block.header.timestamp == (as_usize prev.timestamp + wait) % 2 ^ 64)
          bad_timestamp (λ _. if ltb_ℤ now block.header.timestamp then err too_early else ok tt)
          h6 in
      let diff_same : blob.difficulty ≡ diff = ground (arith, same.0) in
      record {
        blob = blob;
        target = info.0;
        count = info.1;
        wait = wait;
        prev_block = prev;
        decoded = or_err_ok bad_blob _ blob b;
        difficulty = expect_ok x rk config _ diff d ∙ ap ok (sym diff_same);
        info = info_ok x rk config _ info i;
        enough = ground (arith, enough.0);
        signed = signed.0;
        waited = ap (λ e. total_wait x rk config e info.0 blob.sigs 0) diff_same ∙ w;
        follows = of_result_ok no_block _ prev p;
        at_time = ground (arith, timed.0);
        past = ground (arith, timed.1);
      }
