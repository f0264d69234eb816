-- ===== src/Database/Package/Unpack.antt =====
-- What a package of blocks is unpacked to.
use blockscape.HashMap
use blockscape.HashMap.{HashMap}
use blockscape.Network.Message.{Block, BlockHeader, Txn}
use blockscape.Database.Store.{Database, Action, ok, ◌>>=◌}
use blockscape.Database.Returns.{Gives, Gives-bind, Gives-pure}
use blockscape.Database.Chain.{ChainExternals, or_panic}
use blockscape.Database.Package.{
  index_txns, index_blocks, Packing, pack_txns, push_block, pack_blocks, block_size, picked,
  BlockPackage, new_empty, complete_blocks, package_headers, unpack, unpack_block,
}
use blockscape.Database.Package.Numbering.{
  Numbers, index_txns_keeps, AllStored, Packed, pack_txns_lem,
}
use blockscape.Base.{
  ℕ, ◌+◌, ◌%◌, ◌^◌, ◌≤◌, ◌<◌, ◌≡◌, refl, sym, ◌∙◌, ap, ap₂, Bool, true, false, some, List, [], ◌∷◌,
  ◌++◌, map, length, leb, nat_eq, arith, Bool-cases, Option-cases, inl, inr,
}
use mathlib.Core.Path.{subst}
use mathlib.Core.List.{append_assoc, append-nil}

index_blocks_keeps :
    (bs : List Block) (m m' : HashMap ℕ ℕ) (count count' h i : ℕ)
    → index_blocks bs m count ≡ some (m', count')
    → HashMap.get h m ≡ some i
    → HashMap.get h m' ≡ some i
index_blocks_keeps [] m m' count count' h i e k = ground arith
index_blocks_keeps (b ∷ bs) m m' count count' h i e k =
    elim (Option-cases (index_txns b.txns m count)) [
      | inl none_left ↦ absurd (ground arith)
      | inr ((m₁, count₁), e₁) ↦
          index_blocks_keeps bs m₁ m' count₁ count' h i (ground arith)
            (index_txns_keeps b.txns m m₁ count count₁ h i e₁ k)
    ]

no_fit : false ≡ true → ⊥
no_fit h = cc

map-append : (f : Txn → ℕ) (xs ys : List Txn) → map f (xs ++ ys) ≡ map f xs ++ map f ys
map-append f [] ys = refl
map-append f (x ∷ xs) ys = ap (λ l. f x ∷ l) (map-append f xs ys)

-- The number of transactions in blocks, with those that repeat.
abbrev pub txns_total : List Block → ℕ
txns_total [] = 0
txns_total (b ∷ bs) = length b.txns + txns_total bs

index_txns_total :
    (ts : List ℕ) (m : HashMap ℕ ℕ) (count : ℕ)
    → count + length ts ≤ 65535
    → (r : HashMap ℕ ℕ × ℕ) × (index_txns ts m count ≡ some r) × (r.1 ≤ count + length ts)
index_txns_total [] m count h = ((m, count), refl, omega arith)
index_txns_total (t ∷ ts) m count h =
    let known = index_txns_total ts m count (omega arith) in
    let new = index_txns_total ts (HashMap.insert t count m) in
    elim (Bool-cases (HashMap.contains_key t m)) [
      | inl k ↦ (known.0, ground (arith, known.1), omega (arith, known.2))
      | inr k ↦
          let next = new (count + 1) (omega arith) in
          (next.0, ground (arith, next.1), omega (arith, next.2))
    ]

index_blocks_total :
    (bs : List Block) (m : HashMap ℕ ℕ) (count : ℕ)
    → count + txns_total bs ≤ 65535
    → (r : HashMap ℕ ℕ × ℕ) × (index_blocks bs m count ≡ some r)
index_blocks_total [] m count h = ((m, count), refl)
index_blocks_total (b ∷ bs) m count h =
    let first = index_txns_total b.txns m count (omega arith) in
    let rest = index_blocks_total bs first.0.0 first.0.1 (omega (arith, first.2)) in
    (rest.0, ground (arith, first.1, rest.1))

module _ (ex : ChainExternals) (db : Database) where
  -- Every transaction of the blocks is stored under its hash.
  abbrev pub AllBlocksStored : List Block → Type 0
  AllBlocksStored [] = Unit {0}
  AllBlocksStored (b ∷ bs) = AllStored ex db b.txns × AllBlocksStored bs

module _ (ex : ChainExternals) (db : Database) (limit : ℕ) where
  -- After transactions with the hashes before, the package has the first of the blocks, and all of
  -- them where the limit is no limit.
  abbrev Unpacks : List ℕ → List Block → BlockPackage → Type 0
  Unpacks before bs pkg =
      (rest : List Block) × (2 ^ 64 ≤ limit + 1 → rest ≡ [])
      × ((after : List ℕ)
          → map (unpack_block (before ++ map ex.hash_txn pkg.txns ++ after)) pkg.blocks ++ rest
            ≡ bs)

  Unpacks-push :
      (before : List ℕ) (m' : HashMap ℕ ℕ) (count' : ℕ) (b : Block) (bs : List Block) (p : Packing)
      (pkg : BlockPackage)
      → Packed ex db before m' count' b.txns p
      → Unpacks (before ++ map ex.hash_txn p.new_txns) bs pkg
      → Unpacks before (b ∷ bs) (record {
        blocks = (b.header, p.txn_indicies) ∷ pkg.blocks;
        txns = p.new_txns ++ pkg.txns;
      })
  Unpacks-push before m' count' b bs p pkg q (rest, whole, u) =
      let front = before ++ map ex.hash_txn p.new_txns in
      let hashes = map ex.hash_txn pkg.txns in
      let joined : front ++ hashes ≡ before ++ map ex.hash_txn (p.new_txns ++ pkg.txns) =
        append_assoc before (map ex.hash_txn p.new_txns) hashes
        ∙ ap (λ l. before ++ l) (sym (map-append ex.hash_txn p.new_txns pkg.txns)) in
      (
        rest,
        whole,
        λ after.
            subst
              (λ l.
                map (unpack_block (l ++ after)) ((b.header, p.txn_indicies) ∷ pkg.blocks) ++ rest
                ≡ b ∷ bs)
              joined
              (ap₂ (λ (ts : List ℕ) (l : List Block). record { header = b.header; txns = ts } ∷ l)
                (subst (λ l. picked l p.txn_indicies ≡ b.txns)
                  (sym (append_assoc front hashes after)) (q.resolves (hashes ++ after)))
                (u after)),
      )

  push_block_lem :
      (before : List ℕ) (m' : HashMap ℕ ℕ) (count' : ℕ) (b : Block) (bs : List Block) (p : Packing)
      (next : ℕ → ℕ → Action BlockPackage) (fits : Bool)
      → (2 ^ 64 ≤ limit + 1 → fits ≡ true)
      → Packed ex db before m' count' b.txns p
      → Gives (Unpacks (before ++ map ex.hash_txn p.new_txns) bs) (next p.count p.size) db
      → Gives (Unpacks before (b ∷ bs)) (push_block ex b next p fits) db
  push_block_lem before m' count' b bs p next true f q g =
      Gives-bind (Unpacks (before ++ map ex.hash_txn p.new_txns) bs) (Unpacks before (b ∷ bs))
        (next p.count p.size) _ db g
        λ pkg u.
          Gives-pure (Unpacks before (b ∷ bs)) db (Unpacks-push before m' count' b bs p pkg q u)
  push_block_lem before m' count' b bs p next false f q g =
      Gives-pure (Unpacks before (b ∷ bs)) db {a = new_empty}
        (b ∷ bs, (λ h. absurd (no_fit (f h))), λ after. refl)

  pack_blocks_lem :
      (F : HashMap ℕ ℕ) (total : ℕ) (bs : List Block) (m : HashMap ℕ ℕ) (count size : ℕ)
      (before : List ℕ)
      → index_blocks bs m count ≡ some (F, total)
      → Numbers m count before
      → AllBlocksStored ex db bs
      → size < 2 ^ 64
      → Gives (Unpacks before bs) (pack_blocks ex F limit bs count size) db
  pack_blocks_lem F total [] m count size before e n stored small =
      Gives-pure (Unpacks before []) db {a = new_empty} ([], (λ h. refl), λ after. refl)
  pack_blocks_lem F total (b ∷ bs) m count size before e n stored small =
      elim (Option-cases (index_txns b.txns m count)) [
        | inl none_left ↦ absurd (ground arith)
        | inr ((m₁, count₁), e₁) ↦
            let e' : index_blocks bs m₁ count₁ ≡ some (F, total) = ground arith in
            let size' = (size + block_size ex b) % 2 ^ 64 in
            Gives-bind (Packed ex db before m₁ count₁ b.txns) (Unpacks before (b ∷ bs))
              (pack_txns ex F b.txns count size') _ db
              (pack_txns_lem ex db F b.txns m m₁ count count₁ size' before e₁
                (λ h i k. index_blocks_keeps bs m₁ F count₁ total h i e' k) n stored.0
                (omega arith))
              λ p q.
                push_block_lem before m₁ count₁ b bs p (pack_blocks ex F limit bs)
                  (leb p.size limit) (λ h. ground (arith, q.sized)) q
                  (subst
                    (λ c.
                      Gives (Unpacks (before ++ map ex.hash_txn p.new_txns) bs)
                        (pack_blocks ex F limit bs c p.size) db)
                    (sym q.counts)
                    (pack_blocks_lem F total bs m₁ count₁ p.size
                      (before ++ map ex.hash_txn p.new_txns) e' q.numbers stored.1 q.sized))
      ]

-- A list of headers whose blocks and transactions are stored, with at most 65535 transactions, is
-- packaged without an error, and the package unpacks to the first of these blocks, with all their
-- transactions in order; to all of them where the limit is at least the greatest `usize`.
pub unpack-package_headers :
    (ex : ChainExternals) (db : Database) (headers : List BlockHeader) (bs : List Block) (limit : ℕ)
    → complete_blocks ex headers db ≡ (ok bs, db)
    → AllBlocksStored ex db bs
    → txns_total bs ≤ 65535
    → (pkg : BlockPackage) × (package_headers ex headers limit db ≡ (ok pkg, db))
      × (rest : List Block) × ((unpack ex.hash_txn pkg).0 ++ rest ≡ bs)
      × (2 ^ 64 ≤ limit + 1 → rest ≡ [])
unfolding package_headers unpack Gives
unpack-package_headers ex db headers bs limit complete stored few =
    let (index, numbered) = index_blocks_total bs [] 0 (omega arith) in
    let n : Numbers [] 0 [] = record { at = λ h i e. cc; all = refl } in
    let go : List Block → Action BlockPackage =
      λ blocks. or_panic (index_blocks blocks [] 0) >>= λ i. pack_blocks ex i.0 limit blocks 0 0 in
    let packed : Gives (Unpacks ex db limit [] bs) (package_headers ex headers limit) db =
      Gives-bind (λ a. a ≡ bs) (Unpacks ex db limit [] bs) (complete_blocks ex headers) go db
        (bs, complete, refl)
        λ a same.
          subst (λ c. Gives (Unpacks ex db limit [] bs) (go c) db) (sym same)
            (rw numbered (
              pack_blocks_lem ex db limit index.0 index.1 bs [] 0 0 [] numbered n stored
                (omega arith))) in
    let (pkg, e, (rest, whole, u)) = packed in
    (
      pkg,
      e,
      rest,
      subst (λ hashes. map (unpack_block hashes) pkg.blocks ++ rest ≡ bs)
          (append-nil (map ex.hash_txn pkg.txns)) (u []),
      whole,
    )
