-- ===== src/Database/Stake.antt =====
-- Stakes of validators: `get_validator_stake`, `_change_validator_stake`.
pub mod Laws
use blockscape.Database.Key.{Key, network, validator_stake}
use blockscape.Database.Interface.{Externals}
use blockscape.Database.Store.{
  Database, Action, ok, err, panic, pure, ◌>>=◌, ◌>>◌, get_raw, put_raw, found, decode,
}
use blockscape.Base.{ℕ, ◌+◌, ◌-◌, ◌%◌, ◌^◌, Option, none, some, Bin}
use blockscape.Base.Int.{ℤ, pos, negsuc}

-- A sum or difference of `u64`, which wraps.
abbrev pub add_stake : ℕ → ℤ → ℕ
add_stake value (pos n) = (value + n) % 2 ^ 64
add_stake value (negsuc n) = (value + (2 ^ 64 - (n + 1) % 2 ^ 64)) % 2 ^ 64

module _ (ex : Externals) where
  unfoldable pub get_validator_stake : ℕ → Action ℕ
  unfolding get_raw
  get_validator_stake id = do v ← get_raw ex (network (validator_stake id)); decode ex.u64 v

  abbrev pub stake_or_zero : Option Bin → Action ℕ
  stake_or_zero none = pure 0
  stake_or_zero (some v) = decode ex.u64 v

  unfoldable pub change_validator_stake : ℕ → ℤ → Action (Unit {0})
  unfolding get_raw put_raw
  change_validator_stake id amount = do
    v ← found ex (get_raw ex (network (validator_stake id)))
    value ← stake_or_zero v
    put_raw ex (network (validator_stake id)) (ex.u64.serialize (add_stake value amount))
