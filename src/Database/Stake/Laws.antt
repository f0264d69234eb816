-- ===== src/Database/Stake/Laws.antt =====
-- What a change of a stake does to the stakes of all validators.
use blockscape.Database.Key.{network, validator_stake, as_bin}
use blockscape.Database.Interface.{Externals}
use blockscape.Database.Store.{
  Database, ok, err, ◌>>◌, get_raw, put_raw, update, bind-ok, deserialize_failed,
}
use blockscape.Database.Stake.{add_stake, change_validator_stake}
use blockscape.Base.{
  ℕ, zero, suc, ◌^◌, ◌<◌, ◌≡◌, refl, ◌∙◌, inl, inr, Option, none, some, [], ◌∷◌, Bin, nat_eq,
  list_eq, list_beq, list_beq_iff, list_beq-append, ◌==◌, if◌then◌else◌, Option-cases, Bool-cases,
  beq_refl, arith,
}
use blockscape.Base.Int.{ℤ, pos, negsuc}

-- The integer with the other sign.
abbrev pub neg : ℤ → ℤ
neg (pos zero) = pos 0
neg (pos (suc n)) = negsuc n
neg (negsuc n) = pos (suc n)

-- Adding an amount and then its opposite gives the stake back, whatever wraps.
pub add_stake-neg : (v : ℕ) (a : ℤ) → v < 2 ^ 64 → add_stake (add_stake v a) (neg a) ≡ v
add_stake-neg v (pos zero) h = omega arith
add_stake-neg v (pos (suc n)) h = omega arith
add_stake-neg v (negsuc n) h = omega arith

pub add_stake_bound : (v : ℕ) (a : ℤ) → add_stake v a < 2 ^ 64
add_stake_bound v (pos n) = omega arith
add_stake_bound v (negsuc n) = omega arith

module _ (ex : Externals) where
  abbrev stake_key : ℕ → Bin
  stake_key id = as_bin ex.key_bytes (network (validator_stake id))

  abbrev read_stake : Option Bin → Option ℕ
  read_stake none = some 0
  read_stake (some v) = ex.u64.deserialize v

  -- The stake that is stored, 0 if none is; `none` where the bytes cannot be read.
  abbrev pub stake_of : Database → ℕ → Option ℕ
  stake_of db id = read_stake (db.rows (stake_key id))

  stake_key_beq : (i j : ℕ) → i < 2 ^ 160 → j < 2 ^ 160 → (stake_key i == stake_key j) ≡ (i == j)
  stake_key_beq i j fi fj = elim (Bool-cases (i == j)) [
    | inl e ↦ let p : i ≡ j = ground arith in rw (e, p) (beq_refl (stake_key j))
    | inr e ↦ rw e (elim (Bool-cases (list_beq (ex.key_bytes.of_u160 i) (ex.key_bytes.of_u160 j))) [
      | inl g ↦ absurd (ground (arith, ex.of_u160_inj i j fi fj ((list_beq_iff _ _).0 g)))
      | inr g ↦ list_beq-append (b'n' ∷ b'V' ∷ b'S' ∷ b'K' ∷ []) _ _ ∙ g
    ])
  ]

  -- The database after a stake has been written.
  abbrev written : Database → ℕ → ℕ → Database
  written db id v = record db { rows = update db.rows (stake_key id) (some (ex.u64.serialize v)) }

  change-eq :
      (db : Database) (id v : ℕ) (a : ℤ)
      → stake_of db id ≡ some v
      → change_validator_stake ex id a db ≡ (ok tt, written db id (add_stake v a))
  unfolding change_validator_stake get_raw put_raw
  change-eq db id v a h = ground (arith, Option-cases (db.rows (stake_key id)))

  change-error :
      (db : Database) (id : ℕ) (a : ℤ)
      → stake_of db id ≡ none
      → change_validator_stake ex id a db ≡ (err deserialize_failed, db)
  unfolding change_validator_stake get_raw put_raw
  change-error db id a h = ground (arith, Option-cases (db.rows (stake_key id)))

  stake_of-written :
      (db : Database) (id v j : ℕ)
      → id < 2 ^ 160
      → j < 2 ^ 160
      → v < 2 ^ 64
      → stake_of (written db id v) j ≡ (if id == j then some v else stake_of db j)
  stake_of-written db id v j fi fj l =
      ground (arith, stake_key_beq id j fi fj, ex.u64.deserialize-serialize v l)

  -- For a validator of 160 bits: where the bytes of its stake cannot be read, the change stops with
  -- that error and writes nothing. Otherwise it succeeds, this stake has the amount added, the stake
  -- of every other validator of 160 bits is what it was, and so is the current block.
  pub change_validator_stake_lem :
      (db : Database) (id : ℕ) (a : ℤ)
      → id < 2 ^ 160
      → (stake_of db id ≡ none → change_validator_stake ex id a db ≡ (err deserialize_failed, db))
        × ((v : ℕ)
            → stake_of db id ≡ some v
            → ((change_validator_stake ex id a db).0 ≡ ok tt)
              × ((j : ℕ)
                  → j < 2 ^ 160
                  → stake_of (change_validator_stake ex id a db).1 j
                    ≡ (if id == j then some (add_stake v a) else stake_of db j))
              × ((change_validator_stake ex id a db).1.head_block ≡ db.head_block))
  change_validator_stake_lem db id a fi = (
    change-error db id a,
    λ v h. rw (change-eq db id v a h) (
      refl,
      (λ j fj. stake_of-written db id (add_stake v a) j fi fj (add_stake_bound v a)),
      refl,
    ),
  )

  both-eq :
      (db : Database) (id v : ℕ) (a : ℤ)
      → id < 2 ^ 160
      → stake_of db id ≡ some v
      → v < 2 ^ 64
      → (change_validator_stake ex id a >> change_validator_stake ex id (neg a)) db
        ≡ (ok tt, written (written db id (add_stake v a)) id v)
  both-eq db id v a fi h l =
      bind-ok (change_validator_stake ex id a) (λ _. change_validator_stake ex id (neg a)) db
        (written db id (add_stake v a)) tt (change-eq db id v a h)
      ∙ change-eq (written db id (add_stake v a)) id (add_stake v a) (neg a) (
          rw (stake_of-written db id (add_stake v a) id fi fi (add_stake_bound v a), beq_refl id)
            refl)
      ∙ rw (add_stake-neg v a l) refl

  -- Where the stake of a validator of 160 bits is below 2 ^ 64 and can be read, a change and then the
  -- opposite change both succeed, and the stake of every validator of 160 bits is what it was
  -- before, also where the sum wraps on the way.
  pub change_validator_stake-neg :
      (db : Database) (id v : ℕ) (a : ℤ)
      → id < 2 ^ 160
      → stake_of db id ≡ some v
      → v < 2 ^ 64
      → let after = (change_validator_stake ex id a >> change_validator_stake ex id (neg a)) db in
        (after.0 ≡ ok tt) × ((j : ℕ) → j < 2 ^ 160 → stake_of after.1 j ≡ stake_of db j)
  change_validator_stake-neg db id v a fi h l = rw (both-eq db id v a fi h l) (
    refl,
    λ j fj. ground (
      arith,
      stake_of-written (written db id (add_stake v a)) id v j fi fj l,
      stake_of-written db id (add_stake v a) j fi fj (add_stake_bound v a),
    ),
  )
