-- ===== src/Database/Key/Same.antt =====
-- The test of equality of keys (core/src/record_keeper/key.rs), which hash maps over keys use. Keys
-- are compared by their parts: a number for the constructor, and its arguments.
use blockscape.Coord.{Coord, coord_eq}
use blockscape.Database.Key.{
  Key, blockchain, cache, network, block_header, txn_list, txn, blocks_by_height, height_by_block,
  blocks_by_txn, txns_by_account, txn_receive_time, contra_mut, current_head, plot, validator_key,
  validator_stake, admin_key_id, generic,
}
use blockscape.Base.{
  ℕ, ◌≡◌, refl, sym, ap, ◌∙◌, ◌↔◌, Bool, true, ◌&&◌, [], Bin, Eq, nat_eq, list_eq, list_beq_iff,
  nat_beq_iff, ◌==◌, if◌then◌else◌, arith,
}
use blockscape.Base.Int.{pos}

pub record Parts : Type 0 where
  pub constructor_number : ℕ
  pub place : Coord
  pub number : ℕ
  pub bytes : Bin

abbrev pub numbered : ℕ → ℕ → Parts
numbered c n = record {
  constructor_number = c;
  place = record { x = pos 0; y = pos 0 };
  number = n;
  bytes = [];
}

abbrev pub parts : Key → Parts
parts (blockchain (block_header h)) = numbered 0 h
parts (blockchain (txn_list h)) = numbered 1 h
parts (blockchain (txn h)) = numbered 2 h
parts (cache (blocks_by_height h)) = numbered 3 h
parts (cache (height_by_block h)) = numbered 4 h
parts (cache (blocks_by_txn h)) = numbered 5 h
parts (cache (txns_by_account h)) = numbered 6 h
parts (cache (txn_receive_time h)) = numbered 7 h
parts (cache (contra_mut h)) = numbered 8 h
parts (cache current_head) = numbered 9 0
parts (network (validator_key h)) = numbered 10 h
parts (network (validator_stake h)) = numbered 11 h
parts (network admin_key_id) = numbered 12 0
parts (network (generic b)) = record (numbered 13 0) { bytes = b }
parts (network (plot p t)) = record (numbered 14 t) { place = p }

abbrev pub whole_at : ℕ → Coord → ℕ → Bin → Key
whole_at c p n b =
    if c == 0
    then blockchain (block_header n)
    else if c == 1
    then blockchain (txn_list n)
    else if c == 2
    then blockchain (txn n)
    else if c == 3
    then cache (blocks_by_height n)
    else if c == 4
    then cache (height_by_block n)
    else if c == 5
    then cache (blocks_by_txn n)
    else if c == 6
    then cache (txns_by_account n)
    else if c == 7
    then cache (txn_receive_time n)
    else if c == 8
    then cache (contra_mut n)
    else if c == 9
    then cache current_head
    else if c == 10
    then network (validator_key n)
    else if c == 11
    then network (validator_stake n)
    else if c == 12
    then network admin_key_id
    else if c == 13
    then network (generic b)
    else network (plot p n)

abbrev pub whole : Parts → Key
whole q = whole_at q.constructor_number q.place q.number q.bytes

pub whole-parts : (k : Key) → whole (parts k) ≡ k
whole-parts (blockchain (block_header h)) = refl
whole-parts (blockchain (txn_list h)) = refl
whole-parts (blockchain (txn h)) = refl
whole-parts (cache (blocks_by_height h)) = refl
whole-parts (cache (height_by_block h)) = refl
whole-parts (cache (blocks_by_txn h)) = refl
whole-parts (cache (txns_by_account h)) = refl
whole-parts (cache (txn_receive_time h)) = refl
whole-parts (cache (contra_mut h)) = refl
whole-parts (cache current_head) = refl
whole-parts (network (validator_key h)) = refl
whole-parts (network (validator_stake h)) = refl
whole-parts (network admin_key_id) = refl
whole-parts (network (generic b)) = refl
whole-parts (network (plot p t)) = refl

abbrev pub same_parts : Parts → Parts → Bool
same_parts q r =
    q.constructor_number == r.constructor_number
    && q.place == r.place
    && q.number == r.number
    && q.bytes == r.bytes

pub same_parts_iff : (q r : Parts) → (same_parts q r ≡ true) ↔ (q ≡ r)
same_parts_iff q r = ground (
  arith,
  nat_beq_iff q.constructor_number r.constructor_number,
  coord_eq.beq_iff q.place r.place,
  list_beq_iff q.bytes r.bytes,
)

instance abbrev pub key_eq : Eq Key
key_eq = record {
  beq = λ j k. same_parts (parts j) (parts k);
  beq_iff = λ j k. (
    λ h. sym (whole-parts j) ∙ ap whole ((same_parts_iff (parts j) (parts k)).0 h) ∙ whole-parts k,
    λ p. (same_parts_iff (parts j) (parts k)).1 (ap parts p),
  );
}
