-- ===== src/Database/Chain.antt =====
-- The blocks, transactions and heights in the database (core/src/record_keeper/database.rs). A
-- `HashSet` of hashes is a list of them. Logging is left out.
pub mod Laws
use blockscape.Mutation.{Mutation, new, merge}
use blockscape.Network.Message.{BlockHeader, Block, Txn}
use blockscape.Database.Key.{
  Key, blockchain, cache, network, block_header, txn_list, txn, blocks_by_height, height_by_block,
  blocks_by_txn, txns_by_account, txn_receive_time, contra_mut, current_head, validator_key,
}
use blockscape.Database.Interface.{Externals}
use blockscape.Database.Store.{
  Database, Action, Error, not_found, deserialize_failed, ok, err, panic, pure, fail, ◌>>=◌, ◌>>◌,
  get_raw, put_raw, found,
}
use blockscape.Base.{
  ℕ, ◌+◌, ◌%◌, ◌^◌, ◌<◌, Bool, true, false, Option, none, some, List, [], ◌∷◌, ◌++◌, Bin, nat_eq,
  ◌==◌, contains, if◌then◌else◌,
}
use blockscape.Base.Int.{ℤ}

-- `serialize` and `deserialize` at one type, of which the methods here need no law.
pub record Coder (A : Type 0) : Type 0 where
  pub serialize : A → Bin
  pub deserialize : Bin → Option A

-- What the methods take from `bincode` and from hashing besides.
pub record ChainExternals : Type 0 where
  pub base : Externals
  pub header : Coder BlockHeader
  pub hashes : Coder (List ℕ)
  pub txns : Coder Txn
  pub time : Coder ℤ
  pub mutations : Coder Mutation
  pub head : Coder (ℕ × ℕ)
  pub hash_header : BlockHeader → ℕ
  pub hash_txn : Txn → ℕ

-- `HashSet::insert`: the set, and whether the hash is new.
abbrev pub insert_hash : ℕ → List ℕ → List ℕ × Bool
insert_hash h set = if contains set h then (set, false) else (set ++ h ∷ [], true)

-- `swap(0, index)` for the first place of a hash after the front; `none` if there is none.
abbrev swap_in : ℕ → ℕ → List ℕ → Option (List ℕ)
swap_in h front [] = none
swap_in h front (x ∷ xs) =
    let rest = swap_in h front xs in
    if x == h then some (front ∷ xs) else elim rest [ none ↦ none | some ys ↦ some (x ∷ ys) ]

abbrev swap_front : ℕ → List ℕ → Option (List ℕ)
swap_front h [] = none
swap_front h (x ∷ xs) =
    if x == h
    then some (x ∷ xs)
    else elim (swap_in h x xs) [ none ↦ none | some ys ↦ some (h ∷ ys) ]

abbrev first_of : List ℕ → Action ℕ
first_of [] db = (panic, db)
first_of (h ∷ hs) db = (ok h, db)

abbrev pub or_panic : {A : Type 0} → Option A → Action A
or_panic none db = (panic, db)
or_panic (some a) db = (ok a, db)

abbrev decode_by : {A : Type 0} → (Bin → Option A) → Bin → Action A
decode_by deserialize b db = elim (deserialize b) [
  | none ↦ (err deserialize_failed, db)
  | some a ↦ (ok a, db)
]

module _ (ex : ChainExternals) where
  -- `deserialize(&self._get(key)?)?`
  abbrev read : {A : Type 0} → (Bin → Option A) → Key → Action A
  read deserialize key = get_raw ex.base key >>= decode_by deserialize

  -- The same with an empty list where nothing is stored.
  abbrev decode_or_empty : Option Bin → Action (List ℕ)
  decode_or_empty none = pure []
  decode_or_empty (some b) = decode_by ex.hashes.deserialize b

  abbrev read_or_empty : Key → Action (List ℕ)
  read_or_empty key = found ex.base (get_raw ex.base key) >>= decode_or_empty

  unfoldable pub get_block_header : ℕ → Action BlockHeader
  get_block_header hash = read ex.header.deserialize (blockchain (block_header hash))

  unfoldable pub complete_block : BlockHeader → Action Block
  complete_block header = do
    txns ← read ex.hashes.deserialize (blockchain (txn_list header.merkle_root))
    pure (record { header = header; txns = txns })

  unfoldable pub get_block : ℕ → Action Block
  unfolding get_block_header complete_block
  get_block hash = get_block_header hash >>= complete_block

  unfoldable pub get_txn : ℕ → Action Txn
  get_txn hash = read ex.txns.deserialize (blockchain (txn hash))

  unfoldable pub get_txn_blocks : ℕ → Action (List ℕ)
  get_txn_blocks hash = read ex.hashes.deserialize (cache (blocks_by_txn hash))

  unfoldable pub get_account_txns : ℕ → Action (List ℕ)
  unfolding get_raw
  get_account_txns account = read_or_empty (cache (txns_by_account account))

  unfoldable pub get_txn_receive_time : ℕ → Action ℤ
  get_txn_receive_time hash = read ex.time.deserialize (cache (txn_receive_time hash))

  unfoldable pub get_validator_key : ℕ → Action Bin
  get_validator_key id = get_raw ex.base (network (validator_key id))

  unfoldable pub get_blocks_of_height : ℕ → Action (List ℕ)
  unfolding get_raw
  get_blocks_of_height height = read_or_empty (cache (blocks_by_height height))

  unfoldable pub get_current_block_of_height : ℕ → Action ℕ
  get_current_block_of_height height =
      read ex.hashes.deserialize (cache (blocks_by_height height)) >>= first_of

  unfoldable pub get_block_height : ℕ → Action ℕ
  get_block_height hash db =
      if hash == db.head_block
      then (ok db.head_height, db)
      else read ex.base.u64.deserialize (cache (height_by_block hash)) db

  unfoldable pub is_part_of_current_chain : ℕ → Action Bool
  unfolding get_block_height get_current_block_of_height
  is_part_of_current_chain hash = do
    height ← get_block_height hash
    member ← get_current_block_of_height height
    pure (hash == member)

  unfoldable pub add_block_to_height : ℕ → ℕ → Action (Unit {0})
  unfolding get_blocks_of_height put_raw
  add_block_to_height height hash = do
    vals ← get_blocks_of_height height
    if contains vals hash
        then pure tt
        else put_raw ex.base (cache (blocks_by_height height))
            (ex.hashes.serialize (vals ++ hash ∷ []))

  abbrev put_swapped : Key → Option (List ℕ) → Action (Unit {0})
  put_swapped key none = fail (not_found key)
  put_swapped key (some vals) = put_raw ex.base key (ex.hashes.serialize vals)

  unfoldable pub update_current_chain : ℕ → ℕ → Action (Unit {0})
  update_current_chain height hash = do
    vals ← read ex.hashes.deserialize (cache (blocks_by_height height))
    put_swapped (cache (blocks_by_height height)) (swap_front hash vals)

  unfoldable pub add_height_for_block : ℕ → ℕ → Action (Unit {0})
  add_height_for_block height hash =
      put_raw ex.base (cache (height_by_block hash)) (ex.base.u64.serialize height)

  abbrev put_if_new : ℕ → List ℕ × Bool → Action (Unit {0})
  put_if_new t (set, true) = put_raw ex.base (cache (blocks_by_txn t)) (ex.hashes.serialize set)
  put_if_new t (set, false) = pure tt

  unfoldable pub add_block_for_txn : ℕ → ℕ → Action (Unit {0})
  add_block_for_txn t hash = do
    blocks ← read_or_empty (cache (blocks_by_txn t))
    put_if_new t (insert_hash hash blocks)

  -- The source writes the set of the account under the key of the transaction.
  unfoldable pub add_txn_to_account : ℕ → ℕ → Action (Unit {0})
  unfolding get_account_txns put_raw
  add_txn_to_account account t = do
    txns ← get_account_txns account
    put_if_new t (insert_hash t txns)

  unfoldable pub add_receive_time : ℕ → ℤ → Action (Unit {0})
  add_receive_time t time = put_raw ex.base (cache (txn_receive_time t)) (ex.time.serialize time)

  unfoldable pub add_txn : Txn → ℤ → Action (Unit {0})
  unfolding add_receive_time add_txn_to_account
  add_txn t receive_time =
      put_raw ex.base (blockchain (txn (ex.hash_txn t))) (ex.txns.serialize t)
      >> add_receive_time (ex.hash_txn t) receive_time
      >> add_txn_to_account t.creator (ex.hash_txn t)

  abbrev add_block_for_txns : List ℕ → ℕ → Action (Unit {0})
  add_block_for_txns [] hash = pure tt
  add_block_for_txns (t ∷ ts) hash = add_block_for_txn t hash >> add_block_for_txns ts hash

  -- `is_ok()` of a look-up.
  abbrev is_ok : {A : Type 0} → Action A → Action Bool
  is_ok m db =
      let (r, db') = m db in
      elim r [ ok a ↦ (ok true, db') | err e ↦ (ok false, db') | panic ↦ (panic, db') ]

  -- The rest of `add_block` for a block that is not known. The height is a `u64`, which wraps.
  abbrev store_block : Block → ℕ → Action Bool
  store_block block hash = do
    put_raw ex.base (blockchain (block_header hash)) (ex.header.serialize block.header)
    put_raw ex.base (blockchain (txn_list block.header.merkle_root))
        (ex.hashes.serialize block.txns)
    prev ← get_block_height block.header.prev
    add_block_to_height ((prev + 1) % 2 ^ 64) hash
    add_height_for_block ((prev + 1) % 2 ^ 64) hash
    add_block_for_txns block.txns hash
    pure true

  unfoldable pub add_block : Block → Action Bool
  add_block block = do
    known ← is_ok (get_block_header (ex.hash_header block.header))
    if known then pure false else store_block block (ex.hash_header block.header)

  -- The loop of `get_block_mutation` and `_get_mutation`.
  abbrev merge_txns : List ℕ → Mutation → Action Mutation
  merge_txns [] m = pure m
  merge_txns (t ∷ ts) m = do
    tx ← get_txn t
    merged ← or_panic (merge m tx.mutation)
    merge_txns ts merged

  unfoldable pub get_block_mutation : Block → Action Mutation
  get_block_mutation block = merge_txns block.txns new

  unfoldable pub get_contra : ℕ → Action Mutation
  get_contra hash = read ex.mutations.deserialize (cache (contra_mut hash))

  unfoldable pub add_contra : ℕ → Mutation → Action (Unit {0})
  add_contra hash contra = put_raw ex.base (cache (contra_mut hash)) (ex.mutations.serialize contra)

  abbrev put_head : ℕ → ℕ → Action (Unit {0})
  put_head hash height db =
      put_raw ex.base (cache current_head) (ex.head.serialize (hash, height))
        (record db { head_block = hash; head_height = height })

  abbrev known_height : Option ℕ → ℕ → Action ℕ
  known_height (some h) hash = pure h
  known_height none hash = get_block_height hash

  unfoldable pub update_current_block : ℕ → Option ℕ → Action (Unit {0})
  update_current_block hash height = known_height height hash >>= put_head hash
