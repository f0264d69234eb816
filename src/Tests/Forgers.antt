-- ===== src/Tests/Forgers.antt =====
-- Examples of forging and validating blocks.
use blockscape.Network.Message.{Block}
use blockscape.Database.Store
use blockscape.Forging.{
  Externals, Keeper, ok, apply_block, check_sigs, with_blob, new_config, gen_wait,
}
use blockscape.Forging.Validate.{validate}
use blockscape.Forging.Signatures.{IsSized, check_sigs-apply_block}
use blockscape.Forging.Accepted.{IsAccepted, validate-IsAccepted}
use blockscape.Forging.Waits.{gen_wait_lem}
use blockscape.Base.{
  ℕ, ◌≡◌, ◌≤◌, ◌*◌, ◌^◌, refl, true, false, some, [], ◌∷◌, Bin, list_beq, nat_beq_iff, list_eq,
  nat_eq, ◌==◌, length, if◌then◌else◌, arith,
}
use blockscape.Base.Int.{pos}
use blockscape.Tests.Codecs.{ones}

-- The size of a key: one has 32 bytes, all others have 256.
abbrev size : Bin → ℕ
size der = if der == (8 ∷ []) then 32 else 256

-- A signature is anything of the size of the key.
abbrev externals : Externals
externals = record {
  data_coder = record {
    serialize = λ d. d.difficulty ∷ [];
    deserialize = λ b.
        some (record { difficulty = 1; sigs = if b == (2 ∷ []) then (8 ∷ [], 2) ∷ [] else [] });
  };
  serialize_u256 = λ n. ones 32;
  to_big_endian = ones;
  from_big_endian = λ b. 2;
  sha3_256 = λ b. b;
  log = λ n base. 1;
  hash_pub_key = length;
  key_from_der = λ b. true;
  public_key_to_der = λ k. some (k ∷ []);
  sign_bytes = λ msg k. some (ones 256);
  deserialize_u256 = λ b. some (length b);
  verify_bytes = λ msg sig key. length sig == size key;
}

externals-IsSized : IsSized externals size
externals-IsSized = record {
  written = λ n. refl;
  verified = λ msg sig der h. (nat_beq_iff (length sig) (size der)).0 h;
}

abbrev block : Bin → Block
block blob = record {
  header = record {
    version = 1;
    timestamp = pos 9000;
    shard = 1;
    prev = 4;
    merkle_root = 0;
    blob = blob;
  };
  txns = [];
}

-- The key has 256 bytes.
check_sigs-apply_block_example :
    check_sigs externals (record { difficulty = 1; sigs = (7 ∷ [], 256) ∷ [] }) 2 ≡ false
unfolding list_beq apply_block
check_sigs-apply_block_example =
    check_sigs-apply_block externals size externals-IsSized (block (1 ∷ []))
      (with_blob externals (block (1 ∷ [])) (1 ∷ [])) 1 2 7 2 (7 ∷ [])
      (record { difficulty = 1; sigs = (7 ∷ [], 256) ∷ [] }) refl (λ h. absurd (omega (arith, h)))
      refl

abbrev small_keeper : Keeper
small_keeper = record {
  get_block_header = λ hash. Store.ok (record (block []).header { prev = 0 });
  get_block = λ hash. Store.ok (block []);
  get_block_height = λ hash. Store.ok 5;
  get_validator_stake = λ id. Store.ok 1;
}

validate-IsAccepted_example :
    IsAccepted externals small_keeper (new_config []) (block (2 ∷ [])) (pos 9001)
unfolding validate new_config list_beq
validate-IsAccepted_example =
    validate-IsAccepted externals small_keeper (new_config []) (block (2 ∷ [])) (pos 9001) refl

gen_wait_lem_example :
    (w : ℕ) × (v : ℕ) × (gen_wait (new_config []) 1 0 100 900 ≡ ok w)
    × (gen_wait (new_config []) 1 3 100 900 ≡ ok v)
    × (v ≤ w)
    × (w * 0 ≤ 2 ^ 63)
unfolding new_config
gen_wait_lem_example =
    gen_wait_lem (new_config []) 1 0 3 100 900 (omega arith) (omega arith) (omega arith)
      (omega arith) (omega arith) (omega arith)
