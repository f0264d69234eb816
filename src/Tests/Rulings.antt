-- ===== src/Tests/Rulings.antt =====
-- Examples of the rules.
use blockscape.Mutation.{Change, transfer}
use blockscape.Rules.Shares.{
  Result, ok, is_valid, record_senders, charge, is_forbidden, subtotal_of, checked_add,
  check_stakes,
}
use blockscape.Rules.Shares.Laws.{Signed, sends, sent, is_valid-covers}
use blockscape.Rules.Merkle.{calculate_merkle_root, calculate_merkle_root_total}
use blockscape.Base.{ℕ, ◌+◌, some, ◌≤◌, ◌<◌, ◌^◌, ◌≡◌, refl, true, List, [], ◌∷◌}

-- A transfer of 4 by itself, and one of the administrator 1 by somebody else.
abbrev transfers : List (Change × ℕ)
transfers = (transfer 4 ((5, 10) ∷ []), 4) ∷ (transfer 1 ((6, 20) ∷ []), 7) ∷ []

abbrev stake : ℕ → Result ℕ
stake s = ok 30

is_valid-covers_example :
    Signed (ok 1) transfers
    × ((s : ℕ)
        → sends s transfers ≡ true
        → (v : ℕ) × (stake s ≡ ok v) × (sent s transfers ≤ v) × (sent s transfers < 2 ^ 63))
unfolding is_valid record_senders charge is_forbidden subtotal_of checked_add check_stakes
is_valid-covers_example = is_valid-covers (ok 1) stake transfers refl

abbrev sum : ℕ → ℕ → ℕ
sum a b = a + b + 1

calculate_merkle_root_total_example :
    (root : ℕ) × (calculate_merkle_root sum (1 ∷ 2 ∷ 3 ∷ []) ≡ some root)
calculate_merkle_root_total_example = calculate_merkle_root_total sum (1 ∷ 2 ∷ 3 ∷ [])
