-- ===== src/RecordKeeper/Laws.antt =====
-- What adding a pending transaction changes.
use blockscape.HashMap
use blockscape.HashMap.{HashMap, get-insert}
use blockscape.Network.Message.{Txn}
use blockscape.Database.Store
use blockscape.Database.Chain
use blockscape.Database.Chain.{ChainExternals}
use blockscape.Database.Package.{txn_size}
use blockscape.Rules.Ruling.{Ruling}
use blockscape.RecordKeeper.{
  RecordKeeper, Pending, Checker, Result, done, err, panic, pending_size, max_pending_txn_mem, view,
  is_valid_txn_given_lock,
}
use blockscape.RecordKeeper.Pending.{
  get_txn, accept, judge, unless_stored, add_new, unless_known, add_pending_txn,
}
use blockscape.Base.{
  ℕ, ◌+◌, ◌≤◌, ◌≡◌, ◌≢◌, inl, inr, refl, Bool, true, false, Option, [], ◌∷◌, Bin, ltb, nat_eq,
  arith, if◌then◌else◌, ◌==◌, Bool-cases,
}
use blockscape.Base.Int.{ℤ}

pending_size-insert :
    (hash : ℕ) (now : ℤ) (txn : Txn) (pending : Pending)
    → HashMap.contains_key hash pending ≡ false
    → pending_size (HashMap.insert hash (now, txn) pending) ≡ pending_size pending + txn_size txn
pending_size-insert hash now txn [] fresh = omega arith
pending_size-insert hash now txn ((h, (time, t)) ∷ pending) fresh =
    ground (arith, pending_size-insert hash now txn pending)

module _ (ex : ChainExternals) (k : Checker) (read_id : Bin → Option ℕ) (fuel : ℕ) where
  -- A transaction is accepted where it is not pending and there is memory for it, or nothing changes.
  pub data Outcome (hash : ℕ) (now : ℤ) (fresh : Bool) (txn : Txn) (rk : RecordKeeper)
      : Result Bool × RecordKeeper → Type 0 where
    accepted :
        (rk' : RecordKeeper)
        → rk' ≡ accept ex k read_id fuel hash now fresh txn rk
        → HashMap.contains_key hash rk.pending_txns ≡ false
        → pending_size rk.pending_txns + txn_size txn ≤ max_pending_txn_mem
        → Outcome hash now fresh txn rk (done true, rk')
    refused : (r : Result Bool) → r ≢ done true → Outcome hash now fresh txn rk (r, rk)

  judge-Outcome :
      (r : Ruling (Unit {0})) (hash : ℕ) (now : ℤ) (fresh : Bool) (txn : Txn) (rk : RecordKeeper)
      → HashMap.contains_key hash rk.pending_txns ≡ false
      → pending_size rk.pending_txns + txn_size txn ≤ max_pending_txn_mem
      → Outcome hash now fresh txn rk (judge ex k read_id fuel r hash now fresh txn rk)
  judge-Outcome (Ruling.ok u) hash now fresh txn rk new fits = accepted _ refl new fits
  judge-Outcome (Ruling.broken e) hash now fresh txn rk new fits = refused _ (λ e. cc)
  judge-Outcome Ruling.failed hash now fresh txn rk new fits = refused _ (λ e. cc)

  unless_stored-Outcome :
      (r : Store.Result Txn) (hash : ℕ) (now : ℤ) (fresh : Bool) (txn : Txn) (rk : RecordKeeper)
      → HashMap.contains_key hash rk.pending_txns ≡ false
      → pending_size rk.pending_txns + txn_size txn ≤ max_pending_txn_mem
      → Outcome hash now fresh txn rk (unless_stored ex k read_id fuel r hash now fresh txn rk)
  unless_stored-Outcome (Store.ok t) hash now fresh txn rk new fits = refused _ (λ e. cc)
  unless_stored-Outcome (Store.err (Store.not_found key)) hash now fresh txn rk new fits =
      judge-Outcome (is_valid_txn_given_lock k (view ex read_id fuel rk.db) rk.pending_txns txn)
        hash now fresh txn rk new fits
  unless_stored-Outcome (Store.err Store.deserialize_failed) hash now fresh txn rk new fits =
      refused _ (λ e. cc)
  unless_stored-Outcome Store.panic hash now fresh txn rk new fits = refused _ (λ e. cc)

  add_new-Outcome :
      (hash : ℕ) (now : ℤ) (fresh : Bool) (txn : Txn) (rk : RecordKeeper)
      → HashMap.contains_key hash rk.pending_txns ≡ false
      → Outcome hash now fresh txn rk (add_new ex k read_id fuel hash now fresh txn rk)
  add_new-Outcome hash now fresh txn rk new =
      elim (Bool-cases (ltb max_pending_txn_mem (pending_size rk.pending_txns + txn_size txn))) [
        | inl full ↦ rw full (refused _ (λ e. cc))
        | inr room ↦ rw room (
            unless_stored-Outcome (Chain.get_txn ex hash rk.db).0 hash now fresh txn rk new
              (ground arith))
      ]

  unless_known-Outcome :
      (r : Result Txn) (hash : ℕ) (now : ℤ) (fresh : Bool) (txn : Txn) (rk : RecordKeeper)
      → HashMap.contains_key hash rk.pending_txns ≡ false
      → Outcome hash now fresh txn rk (unless_known ex k read_id fuel r hash now fresh txn rk)
  unless_known-Outcome (done t) hash now fresh txn rk new = refused _ (λ e. cc)
  unless_known-Outcome (err e) hash now fresh txn rk new = add_new-Outcome hash now fresh txn rk new
  unless_known-Outcome panic hash now fresh txn rk new = refused _ (λ e. cc)

  add_pending_txn-Outcome :
      (txn : Txn) (fresh : Bool) (now : ℤ) (rk : RecordKeeper)
      → Outcome
          (ex.hash_txn txn)
          now
          fresh
          txn
          rk
          (add_pending_txn ex k read_id fuel txn fresh now rk)
  unfolding add_pending_txn
  add_pending_txn-Outcome txn fresh now rk =
      elim (Bool-cases (HashMap.contains_key (ex.hash_txn txn) rk.pending_txns)) [
        | inl known ↦ rw known (refused _ (λ e. cc))
        | inr new ↦ rw new (
            unless_known-Outcome (get_txn ex (ex.hash_txn txn) rk) (ex.hash_txn txn) now fresh txn
              rk new)
      ]

  Outcome-bound :
      (hash : ℕ) (now : ℤ) (fresh : Bool) (txn : Txn) (rk : RecordKeeper)
      (r : Result Bool × RecordKeeper)
      → Outcome hash now fresh txn rk r
      → pending_size rk.pending_txns ≤ max_pending_txn_mem
      → pending_size r.1.pending_txns ≤ max_pending_txn_mem
  Outcome-bound hash now fresh txn rk _ (accepted rk' e new fits) h =
      rw e (omega (arith, pending_size-insert hash now txn rk.pending_txns new))
  Outcome-bound hash now fresh txn rk _ (refused r e) h = h

  -- To add a pending transaction, whether it is accepted or not, leaves the pending transactions
  -- within the bound on their memory if they were within it.
  pub add_pending_txn_bound :
      (txn : Txn) (fresh : Bool) (now : ℤ) (rk : RecordKeeper)
      → pending_size rk.pending_txns ≤ max_pending_txn_mem
      → pending_size (add_pending_txn ex k read_id fuel txn fresh now rk).1.pending_txns
        ≤ max_pending_txn_mem
  add_pending_txn_bound txn fresh now rk h =
      Outcome-bound (ex.hash_txn txn) now fresh txn rk _ (add_pending_txn-Outcome txn fresh now rk)
        h

  get_txn-accept :
      (hash other : ℕ) (now : ℤ) (fresh : Bool) (txn : Txn) (rk : RecordKeeper)
      → get_txn ex other (accept ex k read_id fuel hash now fresh txn rk)
        ≡ (if hash == other then done txn else get_txn ex other rk)
  unfolding get_txn
  get_txn-accept hash other now fresh txn rk =
      ground (arith, get-insert hash other (now, txn) rk.pending_txns)

  Outcome-reads :
      (hash : ℕ) (now : ℤ) (fresh : Bool) (txn : Txn) (rk : RecordKeeper)
      (r : Result Bool × RecordKeeper)
      → Outcome hash now fresh txn rk r
      → (r.0 ≡ done true
          → (other : ℕ)
          → get_txn ex other r.1 ≡ (if hash == other then done txn else get_txn ex other rk))
        × (r.0 ≢ done true → r.1 ≡ rk)
  Outcome-reads hash now fresh txn rk _ (accepted rk' e new fits) =
      (λ h other. rw e (get_txn-accept hash other now fresh txn rk), λ h. absurd (h refl))
  Outcome-reads hash now fresh txn rk _ (refused r e) = (λ h. absurd (e h), λ h. refl)

  -- A transaction that is accepted is found from then on, and every other one is found as before. A
  -- transaction that is not accepted changes nothing.
  pub get_txn-add_pending_txn :
      (txn : Txn) (fresh : Bool) (now : ℤ) (rk : RecordKeeper)
      → let after = add_pending_txn ex k read_id fuel txn fresh now rk in
        (after.0 ≡ done true
          → (other : ℕ)
          → get_txn ex other after.1
            ≡ (if ex.hash_txn txn == other then done txn else get_txn ex other rk))
        × (after.0 ≢ done true → after.1 ≡ rk)
  get_txn-add_pending_txn txn fresh now rk =
      Outcome-reads (ex.hash_txn txn) now fresh txn rk _ (add_pending_txn-Outcome txn fresh now rk)
