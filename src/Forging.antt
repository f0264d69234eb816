-- ===== src/Forging.antt =====
-- Proof of stake (core/src/forging/epos.rs): block data, signatures, waits and difficulties. Keys,
-- signatures, hashes, `bincode` and the logarithm of floats are parameters; a private key is a
-- number. Error texts are left out, and so is logging.
pub mod Difficulty
pub mod Evaluate
pub mod Validate
pub mod Waits
pub mod Signatures
pub mod Accepted
use blockscape.Network.Message.{Block, BlockHeader}
use blockscape.Database.Store.{Result, Database}
use blockscape.Database.Store
use blockscape.Database.Chain
use blockscape.Database.Chain.{ChainExternals, Coder}
use blockscape.Base.{
  ℕ, zero, suc, ◌+◌, ◌-◌, ◌*◌, ◌/◌, ◌%◌, ◌^◌, Bool, true, false, Option, none, some, List, [], ◌∷◌,
  ◌++◌, Bin, length, get_elem?, ltb, nat_eq, ◌==◌, if◌then◌else◌,
}
use blockscape.Base.Int.{ℤ}

pub record EposConfig : Type 0 where
  pub rate_target : ℕ
  pub recalculate_blocks : ℕ
  pub validators_scan : ℕ
  pub validators_count_base : ℕ
  pub signing_keys : List Bin

unfoldable pub new_config : List Bin → EposConfig
new_config keys = record {
  rate_target = 12 * 1000;
  recalculate_blocks = 1800;
  validators_scan = 100;
  validators_count_base = 3;
  signing_keys = keys;
}

pub record EposBlockData : Type 0 where
  pub difficulty : ℕ
  pub sigs : List (Bin × ℕ)

unfoldable pub genesis_block_data : EposBlockData
genesis_block_data = record { difficulty = 1; sigs = [] }

-- What a call gives: a value, the reason of a `ForgeError`, or a panic.
pub data ForgeError : Type 0 where
  no_block no_height bad_blob bad_key failed_info bad_difficulty bad_count bad_signatures no_stake :
      ForgeError
  bad_timestamp too_early : ForgeError

pub data Forged (A : Type 0) : Type 0 where
  ok : A → Forged A
  err : ForgeError → Forged A
  panic : Forged A

infixl 5 ◌>>=◌
abbrev pub ◌>>=◌ : {A B : Type 0} → Forged A → (A → Forged B) → Forged B
ok a >>= f = f a
err e >>= f = err e
panic >>= f = panic

-- `unwrap`, `expect`, or an index out of bounds.
abbrev pub unwrap : {A : Type 0} → Option A → Forged A
unwrap none = panic
unwrap (some a) = ok a

abbrev pub or_err : {A : Type 0} → ForgeError → Option A → Forged A
or_err e none = err e
or_err e (some a) = ok a

-- `map_err` of a result of the record keeper.
abbrev pub of_result : {A : Type 0} → ForgeError → Result A → Forged A
of_result e (Store.ok a) = ok a
of_result e (Store.err x) = err e
of_result e Store.panic = panic

-- What forging asks of the record keeper.
pub record Keeper : Type 0 where
  pub get_block_header : ℕ → Result BlockHeader
  pub get_block : ℕ → Result Block
  pub get_block_height : ℕ → Result ℕ
  pub get_validator_stake : ℕ → Result ℕ

-- The record keeper over a database, whose stakes are all 1 for now.
unfoldable pub keeper : ChainExternals → Database → Keeper
unfolding Chain.get_block_header Chain.get_block Chain.get_block_height
keeper ex db = record {
  get_block_header = λ hash. (Chain.get_block_header ex hash db).0;
  get_block = λ hash. (Chain.get_block ex hash db).0;
  get_block_height = λ hash. (Chain.get_block_height ex hash db).0;
  get_validator_stake = λ id. Store.ok 1;
}

-- What forging takes from other libraries. `log` is the number of signatures for a number of
-- validators and a base, rounded down; `key_from_der` says whether the bytes are a public key;
-- `sign_bytes` gives the whole signature, of which `deserialize_u256` reads a `U256`.
pub record Externals : Type 0 where
  pub data_coder : Coder EposBlockData
  pub serialize_u256 : ℕ → Bin
  pub to_big_endian : ℕ → Bin
  pub from_big_endian : Bin → ℕ
  pub sha3_256 : Bin → Bin
  pub log : ℕ → ℕ → ℕ
  pub hash_pub_key : Bin → ℕ
  pub key_from_der : Bin → Bool
  pub public_key_to_der : ℕ → Option Bin
  pub sign_bytes : Bin → ℕ → Option Bin
  pub deserialize_u256 : Bin → Option ℕ
  pub verify_bytes : Bin → Bin → Bin → Bool

abbrev pub u64_max : ℕ
u64_max = 2 ^ 64 - 1

-- `wrapping_sub`
abbrev pub wrapping_sub : ℕ → ℕ → ℕ
wrapping_sub a b = (a + (2 ^ 64 - b)) % 2 ^ 64

abbrev pub min : ℕ → ℕ → ℕ
min a b = if ltb b a then b else a

abbrev pub max : ℕ → ℕ → ℕ
max a b = if ltb a b then b else a

-- `a / b`, where a divisor of 0 is a panic.
abbrev pub div : ℕ → ℕ → Forged ℕ
div a b = if b == 0 then panic else ok (a / b)

-- The wait on a distance, when the range is known.
abbrev pub wait_of : ℕ → ℕ → ℕ → Forged ℕ
wait_of delta stake range = div delta range >>= λ units. div units stake

unfoldable pub gen_wait : EposConfig → ℕ → ℕ → ℕ → ℕ → Forged ℕ
gen_wait config diff stake target actual =
    let delta = min (wrapping_sub target actual) (wrapping_sub actual target) in
    let range = div u64_max ((diff + 1) % 2 ^ 64) >>= λ r. div r config.rate_target in
    if stake == 0 then ok u64_max else (range >>= wait_of delta stake)

-- `U256` to `u64`
abbrev pub low_u64 : ℕ → ℕ
low_u64 n = n % 2 ^ 64

module _ (x : Externals) where
  -- `check_sigs` from a signature on, with what was signed so far.
  abbrev pub check_from : Bin → List (Bin × ℕ) → Bool
  check_from so_far [] = true
  check_from so_far (s ∷ sigs) =
      let ser = x.serialize_u256 s.1 in
      let rest = check_from (so_far ++ ser) sigs in
      if x.key_from_der s.0 then (if x.verify_bytes so_far ser s.0 then rest else false) else false

  unfoldable pub check_sigs : EposBlockData → ℕ → Bool
  check_sigs d validator_info = check_from (x.serialize_u256 validator_info) d.sigs

  abbrev pub relevant : List (Bin × ℕ) → Forged (ℕ × ℕ)
  relevant sigs = unwrap (get_elem? sigs (length sigs / 2)) >>= λ s. ok (x.hash_pub_key s.0, s.1)

  unfoldable pub get_relevant_validation_data : EposBlockData → Forged (ℕ × ℕ)
  get_relevant_validation_data d = relevant d.sigs

  unfoldable pub decode_relevant_validation_data : BlockHeader → Forged (ℕ × ℕ)
  decode_relevant_validation_data block =
      or_err bad_blob (x.data_coder.deserialize block.blob) >>= λ d. relevant d.sigs

  -- The data of a blob, or new data where the blob is empty.
  abbrev pub data_of : Bin → ℕ → Forged EposBlockData
  data_of [] difficulty = ok (record { difficulty = difficulty; sigs = [] })
  data_of (b ∷ blob) difficulty = or_err bad_blob (x.data_coder.deserialize (b ∷ blob))

  abbrev pub with_blob : Block → Bin → Block
  with_blob block blob = record block { header = record block.header { blob = blob } }

  -- `apply_block`: the block with its new blob, and the data.
  unfoldable pub apply_block : Block → ℕ → ℕ → ℕ → Forged (Block × EposBlockData)
  apply_block block difficulty validator_info my_signer = do
    d ← data_of block.header.blob difficulty
    key ← or_err bad_key (x.public_key_to_der my_signer)
    bytes ← unwrap (x.sign_bytes (x.serialize_u256 validator_info ++ block.header.blob) my_signer)
    sig ← unwrap (x.deserialize_u256 bytes)
    let signed = record d { sigs = d.sigs ++ (key, sig) ∷ [] }
    ok (with_blob block (x.data_coder.serialize signed), signed)
