-- ===== src/Database/Package/Numbering.antt =====
-- How the transactions of a block are packed.
use blockscape.HashMap
use blockscape.HashMap.{HashMap, get-insert}
use blockscape.Network.Message.{Txn}
use blockscape.Database.Store.{Database, Action}
use blockscape.Database.Returns.{Gives, Gives-bind, Gives-pure}
use blockscape.Database.Chain.{ChainExternals, get_txn}
use blockscape.Database.Package.{index_txns, Packing, pack_txns, pack_at, picked, txn_size}
use blockscape.Base.{
  ℕ, suc, zero, ◌+◌, ◌%◌, ◌^◌, ◌<◌, ◌≡◌, refl, sym, ◌∙◌, true, false, none, some, List, [], ◌∷◌,
  ◌++◌, map, length, length-append, get_elem?, ◌==◌, nat_eq, arith, nat_beq_iff, Bool-cases,
  Option-cases, inl, inr,
}
use mathlib.Core.Path.{subst}
use mathlib.Core.List.{append_assoc, append-nil}

-- A read within a list does not depend on what follows.
get_elem?-append :
    (xs ys : List ℕ) (i a : ℕ) → get_elem? xs i ≡ some a → get_elem? (xs ++ ys) i ≡ some a
get_elem?-append [] ys i a h = cc
get_elem?-append (x ∷ xs) ys zero a h = h
get_elem?-append (x ∷ xs) ys (suc i) a h = get_elem?-append xs ys i a h

get_elem?_end : (xs : List ℕ) (a : ℕ) → get_elem? (xs ++ a ∷ []) (length xs) ≡ some a
get_elem?_end [] a = refl
get_elem?_end (x ∷ xs) a = get_elem?_end xs a

get_elem?_bound : (xs : List ℕ) (i a : ℕ) → get_elem? xs i ≡ some a → i < length xs
get_elem?_bound [] i a h = cc
get_elem?_bound (x ∷ xs) zero a h = omega arith
get_elem?_bound (x ∷ xs) (suc i) a h = omega (arith, get_elem?_bound xs i a h)

-- A numbering gives positions in the list of hashes.
abbrev pub Extends : HashMap ℕ ℕ → HashMap ℕ ℕ → Type 0
Extends m m' = (h i : ℕ) → HashMap.get h m ≡ some i → HashMap.get h m' ≡ some i

module _ (t count : ℕ) (m : HashMap ℕ ℕ) where
  insert_keeps :
      (h i : ℕ)
      → HashMap.contains_key t m ≡ false
      → HashMap.get h m ≡ some i
      → HashMap.get h (HashMap.insert t count m) ≡ some i
  insert_keeps h i fresh k =
      ground (arith, get-insert t h count m, Option-cases (HashMap.get t m), nat_beq_iff t h)

  insert_self : HashMap.get t (HashMap.insert t count m) ≡ some count
  insert_self = ground (arith, get-insert t t count m, nat_beq_iff t t)

pub index_txns_keeps :
    (ts : List ℕ) (m m' : HashMap ℕ ℕ) (count count' h i : ℕ)
    → index_txns ts m count ≡ some (m', count')
    → HashMap.get h m ≡ some i
    → HashMap.get h m' ≡ some i
index_txns_keeps [] m m' count count' h i e k = ground arith
index_txns_keeps (t ∷ ts) m m' count count' h i e k = ground (
  arith,
  index_txns_keeps ts m m' count count' h i,
  insert_keeps t count m h i,
  index_txns_keeps ts (HashMap.insert t count m) m' (count + 1) count' h i,
)

-- A numbering gives positions in the list of hashes.
pub record Numbers (m : HashMap ℕ ℕ) (count : ℕ) (hashes : List ℕ) : Type 0 where
  pub at : (h i : ℕ) → HashMap.get h m ≡ some i → get_elem? hashes i ≡ some h
  pub all : length hashes ≡ count

Numbers-insert :
    (m : HashMap ℕ ℕ) (count : ℕ) (hashes : List ℕ) (t : ℕ)
    → Numbers m count hashes
    → Numbers (HashMap.insert t count m) (count + 1) (hashes ++ t ∷ [])
Numbers-insert m count hashes t n = record {
  at = λ h i e. elim (Bool-cases (t == h)) [
    | inl same ↦
        ground (arith, get-insert t h count m, nat_beq_iff t h, get_elem?_end hashes t, n.all)
    | inr other ↦
        get_elem?-append hashes (t ∷ []) i h (n.at h i (ground (arith, get-insert t h count m)))
  ];
  all = omega (arith, length-append {0} hashes (t ∷ []), n.all);
}

picked_step :
    (hashes : List ℕ) (i t : ℕ) (is ts : List ℕ)
    → get_elem? hashes i ≡ some t
    → picked hashes is ≡ ts
    → picked hashes (i ∷ is) ≡ t ∷ ts
picked_step hashes i t is ts h e = ground arith

-- The numbering of a list that is not empty, by its first transaction.
index_known :
    (t i : ℕ) (ts : List ℕ) (m : HashMap ℕ ℕ) (count : ℕ)
    → HashMap.get t m ≡ some i
    → index_txns (t ∷ ts) m count ≡ index_txns ts m count
index_known t i ts m count h = ground arith

index_new :
    (t : ℕ) (ts : List ℕ) (m m' : HashMap ℕ ℕ) (count count' : ℕ)
    → HashMap.get t m ≡ none
    → index_txns (t ∷ ts) m count ≡ some (m', count')
    → (count < 65535) × (index_txns ts (HashMap.insert t count m) (count + 1) ≡ some (m', count'))
index_new t ts m m' count count' h e = (ground arith, ground arith)

module _ (ex : ChainExternals) (db : Database) where
  -- The transactions are stored under their hashes.
  abbrev pub AllStored : List ℕ → Type 0
  AllStored [] = Unit {0}
  AllStored (t ∷ ts) = Gives (λ x. ex.hash_txn x ≡ t) (get_txn ex t) db × AllStored ts

  -- What is packed of a list of transactions after those with the hashes before.
  pub record Packed (before : List ℕ) (m' : HashMap ℕ ℕ) (count' : ℕ) (ts : List ℕ) (p : Packing)
      : Type 0 where
    pub numbers : Numbers m' count' (before ++ map ex.hash_txn p.new_txns)
    pub counts : p.count ≡ count'
    pub sized : p.size < 2 ^ 64
    pub resolves :
        (after : List ℕ)
        → picked (before ++ map ex.hash_txn p.new_txns ++ after) p.txn_indicies ≡ ts

  Packed-empty :
      (before : List ℕ) (m m' : HashMap ℕ ℕ) (count count' size : ℕ)
      → index_txns [] m count ≡ some (m', count')
      → Numbers m count before
      → size < 2 ^ 64
      → Packed before m' count' []
          (record { txn_indicies = []; new_txns = []; count = count; size = size })
  Packed-empty before m m' count count' size e n small = record {
    numbers =
        let same : (m, count) ≡ (m', count') = cc in
        subst (λ hashes. Numbers m' count' hashes) (sym (append-nil before))
          (subst (λ (r : HashMap ℕ ℕ × ℕ). Numbers r.0 r.1 before) same n);
    counts = ground arith;
    sized = small;
    resolves = λ after. refl;
  }

  Packed-known :
      (before : List ℕ) (m' : HashMap ℕ ℕ) (count' t i : ℕ) (ts : List ℕ) (p : Packing)
      → get_elem? before i ≡ some t
      → Packed before m' count' ts p
      → Packed before m' count' (t ∷ ts) (record p { txn_indicies = i ∷ p.txn_indicies })
  Packed-known before m' count' t i ts p h q = record {
    numbers = q.numbers;
    counts = q.counts;
    sized = q.sized;
    resolves = λ after.
        picked_step (before ++ map ex.hash_txn p.new_txns ++ after) i t p.txn_indicies ts
          (get_elem?-append (before ++ map ex.hash_txn p.new_txns) after i t
            (get_elem?-append before (map ex.hash_txn p.new_txns) i t h))
          (q.resolves after);
  }

  Packed-new :
      (before : List ℕ) (m' : HashMap ℕ ℕ) (count' i t : ℕ) (tx : Txn) (ts : List ℕ) (p : Packing)
      → length before ≡ i
      → ex.hash_txn tx ≡ t
      → Packed (before ++ t ∷ []) m' count' ts p
      → Packed before m' count'
          (t ∷ ts)
          (record p { txn_indicies = i ∷ p.txn_indicies; new_txns = tx ∷ p.new_txns })
  Packed-new before m' count' i t tx ts p h k q =
      let new = before ++ t ∷ [] in
      let news = map ex.hash_txn p.new_txns in
      let joined : new ++ news ≡ before ++ (ex.hash_txn tx ∷ news) =
        rw k (append_assoc before (t ∷ []) news) in
      let found : get_elem? new i ≡ some t = rw (sym h) (get_elem?_end before t) in
      record {
        numbers = subst (λ hashes. Numbers m' count' hashes) joined q.numbers;
        counts = q.counts;
        sized = q.sized;
        resolves = λ after.
            subst (λ hashes. picked (hashes ++ after) (i ∷ p.txn_indicies) ≡ t ∷ ts) joined
              (picked_step (new ++ news ++ after) i t p.txn_indicies ts
                (get_elem?-append (new ++ news) after i t (get_elem?-append new news i t found))
                (q.resolves after));
      }

  pack_at_old :
      (t i : ℕ) (ts : List ℕ) (m' : HashMap ℕ ℕ) (count' : ℕ) (before : List ℕ)
      (rest : ℕ → ℕ → Action Packing) (count size : ℕ)
      → get_elem? before i ≡ some t
      → Gives (Packed before m' count' ts) (rest count size) db
      → Gives (Packed before m' count' (t ∷ ts)) (pack_at ex t rest count size i false) db
  pack_at_old t i ts m' count' before rest count size h g =
      Gives-bind (Packed before m' count' ts) (Packed before m' count' (t ∷ ts)) (rest count size) _
        db g
        λ p q.
          Gives-pure (Packed before m' count' (t ∷ ts)) db
            (Packed-known before m' count' t i ts p h q)

  pack_at_new :
      (t : ℕ) (ts : List ℕ) (m' : HashMap ℕ ℕ) (count' : ℕ) (before : List ℕ)
      (rest : ℕ → ℕ → Action Packing) (count size : ℕ)
      → length before ≡ count
      → Gives (λ x. ex.hash_txn x ≡ t) (get_txn ex t) db
      → ((size' : ℕ)
          → size' < 2 ^ 64
          → Gives (Packed (before ++ t ∷ []) m' count' ts) (rest ((count + 1) % 2 ^ 16) size') db)
      → Gives (Packed before m' count' (t ∷ ts)) (pack_at ex t rest count size count true) db
  pack_at_new t ts m' count' before rest count size h stored g =
      Gives-bind (λ tx. ex.hash_txn tx ≡ t) (Packed before m' count' (t ∷ ts)) (get_txn ex t) _ db
        stored
        λ tx k.
          let size' = (size + txn_size tx) % 2 ^ 64 in
          Gives-bind (Packed (before ++ t ∷ []) m' count' ts) (Packed before m' count' (t ∷ ts))
            (rest ((count + 1) % 2 ^ 16) size') _ db (g size' (omega arith))
            λ p q.
              Gives-pure (Packed before m' count' (t ∷ ts)) db
                (Packed-new before m' count' count t tx ts p h k q)

  module _ (F : HashMap ℕ ℕ) where
    pub pack_txns_lem :
        (ts : List ℕ) (m m' : HashMap ℕ ℕ) (count count' size : ℕ) (before : List ℕ)
        → index_txns ts m count ≡ some (m', count')
        → Extends m' F
        → Numbers m count before
        → AllStored ts
        → size < 2 ^ 64
        → Gives (Packed before m' count' ts) (pack_txns ex F ts count size) db
    pack_txns_lem [] m m' count count' size before e x n stored small =
        Gives-pure (Packed before m' count' []) db
          (Packed-empty before m m' count count' size e n small)
    pack_txns_lem (t ∷ ts) m m' count count' size before e x n stored small =
        elim (Option-cases (HashMap.get t m)) [
          | inr (i, h) ↦
              let e' : index_txns ts m count ≡ some (m', count') =
                sym (index_known t i ts m count h) ∙ e in
              let inside : HashMap.get t F ≡ some i =
                x t i (index_txns_keeps ts m m' count count' t i e' h) in
              let old : (i == count) ≡ false =
                ground (arith, get_elem?_bound before i t (n.at t i h), n.all) in
              let step : Gives (Packed before m' count' (t ∷ ts))
                  (pack_at ex t (pack_txns ex F ts) count size i (i == count)) db =
                rw old (
                  pack_at_old t i ts m' count' before (pack_txns ex F ts) count size (n.at t i h)
                    (pack_txns_lem ts m m' count count' size before e' x n stored.1 small)) in
              rw inside step
          | inl h ↦
              let (below, e') = index_new t ts m m' count count' h e in
              let inside : HashMap.get t F ≡ some count = x t count (
                index_txns_keeps ts (HashMap.insert t count m) m' (count + 1) count' t count e'
                  (insert_self t count m)) in
              let here : (count == count) ≡ true = ground arith in
              let no_wrap : (count + 1) % 2 ^ 16 ≡ count + 1 = omega arith in
              let step : Gives (Packed before m' count' (t ∷ ts))
                  (pack_at ex t (pack_txns ex F ts) count size count (count == count)) db =
                rw here (
                  pack_at_new t ts m' count' before (pack_txns ex F ts) count size n.all stored.0
                    λ size' small'. rw no_wrap (
                      pack_txns_lem ts (HashMap.insert t count m) m' (count + 1) count' size'
                        (before ++ t ∷ []) e' x (Numbers-insert m count before t n) stored.1
                        small')) in
              rw inside step
        ]
