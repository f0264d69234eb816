-- ===== src/Rules/Shares.antt =====
-- Enough shares for every transfer (core/src/record_keeper/rules/mutation/shares.rs). What the rule
-- reads from the database, the identity of the administrator and the stakes, are its parameters.
pub mod Laws
use blockscape.HashMap
use blockscape.HashMap.{HashMap}
use blockscape.Mutation.{Change, admin, block_reward, plot_event, new_validator, slash, transfer}
use blockscape.Base.{
  ℕ, ◌+◌, ◌^◌, Bool, true, false, not, Option, none, some, List, [], ◌∷◌, ltb, leb, nat_eq, ◌==◌,
  if◌then◌else◌, ◌-◌,
}

-- The errors of the rule; the last stands for one of the database.
pub data Error : Type 0 where
  invalid_signer overflowing_addition not_enough_shares possible_overflow database_error : Error

pub data Result (A : Type 0) : Type 0 where
  ok : A → Result A
  err : Error → Result A

infixl 5 ◌>>=◌
abbrev pub ◌>>=◌ : {A B : Type 0} → Result A → (A → Result B) → Result B
r >>= f = elim r [ ok a ↦ f a | err e ↦ err e ]

-- `checked_add` of two `u64`.
unfoldable pub checked_add : ℕ → ℕ → Result ℕ
checked_add a b = if ltb (a + b) (2 ^ 64) then ok (a + b) else err overflowing_addition

-- The total charge of a transfer, from a subtotal on.
unfoldable pub subtotal_of : HashMap ℕ ℕ → ℕ → Result ℕ
unfolding checked_add
subtotal_of [] subtotal = ok subtotal
subtotal_of (entry ∷ to) subtotal = checked_add subtotal entry.1 >>= λ sum. subtotal_of to sum

abbrev pub or_zero : Option ℕ → ℕ
or_zero none = 0
or_zero (some n) = n

module _ (admin_id : Result ℕ) where
  -- The test that refuses a transfer: its creator is not the sender, and the sender is not the
  -- administrator.
  unfoldable pub is_forbidden : ℕ → ℕ → Result Bool
  is_forbidden from creator =
      if from == creator then ok false else admin_id >>= λ id. ok (not (from == id))

  -- One transfer, added to what its sender has sent before.
  unfoldable pub charge : ℕ → ℕ → HashMap ℕ ℕ → HashMap ℕ ℕ → Result (HashMap ℕ ℕ)
  unfolding is_forbidden subtotal_of checked_add
  charge from creator to senders = do
    forbidden ← is_forbidden from creator
    subtotal ← if forbidden then err invalid_signer else subtotal_of to 0
    new_subtotal ← checked_add subtotal (or_zero (HashMap.get from senders))
    ok (HashMap.insert from new_subtotal senders)

  -- The first loop.
  unfoldable pub record_senders : List (Change × ℕ) → HashMap ℕ ℕ → Result (HashMap ℕ ℕ)
  unfolding charge
  record_senders [] senders = ok senders
  record_senders ((transfer from to, creator) ∷ mutation) senders =
      charge from creator to senders >>= λ next. record_senders mutation next
  record_senders (_ ∷ mutation) senders = record_senders mutation senders

module _ (stake : ℕ → Result ℕ) where
  -- The second loop.
  unfoldable pub check_stakes : HashMap ℕ ℕ → Result (Unit {0})
  check_stakes [] = ok tt
  check_stakes ((sender, amount) ∷ senders) =
      let rest = check_stakes senders in
      stake sender >>= λ held.
      if ltb held amount
      then err not_enough_shares
      else if ltb (2 ^ 63 - 1) amount
      then err possible_overflow
      else rest

-- `Shares::is_valid`
unfoldable pub is_valid : Result ℕ → (ℕ → Result ℕ) → List (Change × ℕ) → Result (Unit {0})
unfolding record_senders check_stakes
is_valid admin_id stake mutation =
    record_senders admin_id mutation [] >>= λ senders. check_stakes stake senders
