-- ===== src/Tests/Copies.antt =====
-- An example of the rule on duplicate changes.
use blockscape.Coord.{Coord}
use blockscape.Event.{RawEvents}
use blockscape.Mutation.{Change, new_validator, plot_event}
use blockscape.Rules.Ruling.{Ruling, ok}
use blockscape.Rules.Duplicates.{is_valid}
use blockscape.Rules.Duplicates.Distinct.{AllNew, is_valid-AllNew}
use blockscape.Base.{ℕ, Bool, refl, list_beq, List, [], ◌∷◌, length, nat_eq, ◌==◌}
use blockscape.Base.Int.{pos}

abbrev is_known : ℕ → Bool
is_known hash = hash == 5

abbrev stored : Coord → ℕ → Ruling RawEvents
stored plot tick = ok ((3, (1 ∷ []) ∷ []) ∷ [])

-- Two new validators, and an event at a tick where another one is stored.
abbrev mutation : List (Change × ℕ)
mutation =
    (new_validator (7 ∷ []), 1)
    ∷ (
      plot_event
          (record { from = record { x = pos 0; y = pos 0 }; to = []; tick = 3; event = 2 ∷ [] }),
      1,
    )
    ∷ (new_validator (7 ∷ 7 ∷ []), 1)
    ∷ []

is_valid-AllNew_example : AllNew is_known stored length [] mutation
unfolding is_valid list_beq
is_valid-AllNew_example = is_valid-AllNew is_known stored length mutation refl
