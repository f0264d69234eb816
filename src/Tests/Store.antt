-- ===== src/Tests/Store.antt =====
-- Examples of the database, which holds nothing at first.
use blockscape.Coord.{Coord}
use blockscape.Mutation.{Mutation, admin}
use blockscape.Database.Store.{Database, ok, err, deserialize_failed, ◌>>=◌, ◌>>◌}
use blockscape.Database.Stake.{change_validator_stake, add_stake}
use blockscape.Database.Stake.Laws.{
  neg, stake_of, change_validator_stake_lem, change_validator_stake-neg,
}
use blockscape.Database.Plots.{add_plot_event}
use blockscape.Database.Plots.Add.{IsWell, has_event, add_plot_event_lem}
use blockscape.Database.Mutate.{mutate, undo_mutate}
use blockscape.Database.Mutate.Laws.{none_left, one_more, mutate-undo_mutate}
use blockscape.Event.{RawEvent}
use blockscape.Base.{
  ℕ, ◌<◌, ◌^◌, ◌≡◌, refl, false, ◌&&◌, ◌||◌, none, some, [], ◌∷◌, ◌==◌, nat_eq, list_eq,
  if◌then◌else◌, arith,
}
use blockscape.Base.Int.{pos, negsuc}
use blockscape.Tests.Codecs.{sample_externals}

abbrev empty : Database
empty = record { rows = λ k. none; head_block = 0; head_height = 0 }

change_validator_stake_lem_example :
    (stake_of sample_externals empty 4 ≡ none
      → change_validator_stake sample_externals 4 (pos 10) empty ≡ (err deserialize_failed, empty))
    × ((v : ℕ)
        → stake_of sample_externals empty 4 ≡ some v
        → ((change_validator_stake sample_externals 4 (pos 10) empty).0 ≡ ok tt)
          × ((j : ℕ)
              → j < 2 ^ 160
              → stake_of sample_externals
                  (change_validator_stake sample_externals 4 (pos 10) empty).1
                  j
                ≡ (if 4 == j
                    then some (add_stake v (pos 10))
                    else stake_of sample_externals empty j))
          × ((change_validator_stake sample_externals 4 (pos 10) empty).1.head_block
              ≡ empty.head_block))
change_validator_stake_lem_example =
    change_validator_stake_lem sample_externals empty 4 (pos 10) (omega arith)

change_validator_stake-neg_example :
    let after =
      (change_validator_stake sample_externals 4 (negsuc 9)
          >> change_validator_stake sample_externals 4 (neg (negsuc 9)))
        empty in
    (after.0 ≡ ok tt)
    × ((j : ℕ)
        → j < 2 ^ 160
        → stake_of sample_externals after.1 j ≡ stake_of sample_externals empty j)
change_validator_stake-neg_example =
    change_validator_stake-neg sample_externals empty 4 0 (negsuc 9) (omega arith) refl
      (omega arith)

abbrev home : Coord
home = record { x = pos 0; y = pos 1 }

empty-IsWell : IsWell sample_externals home empty
empty-IsWell = record {
  closed = λ n. record { readable = λ t h l e. ground arith; closed = λ s t hs ht l le e. refl };
  buckets = λ t h l e. ground arith;
}

abbrev late : ℕ
late = 2500

abbrev e5 : RawEvent
e5 = 5 ∷ []

add_plot_event_lem_example :
    (db : Database) × (add_plot_event sample_externals home late e5 empty ≡ (ok tt, db))
    × IsWell sample_externals home db
    × ((s : ℕ) (x : RawEvent)
        → s < 2 ^ 64
        → has_event sample_externals home db s x
          ≡ (has_event sample_externals home empty s x || (late == s && e5 == x)))
add_plot_event_lem_example =
    add_plot_event_lem sample_externals home empty late e5 (omega arith) empty-IsWell

-- Two changes of the same value.
abbrev changes : Mutation
changes = record {
  contra = false;
  changes = admin e5 (some (1 ∷ [])) ∷ admin e5 (some (2 ∷ [])) ∷ [];
}

mutate-undo_mutate_example :
    (mutate sample_externals changes >>= undo_mutate sample_externals) empty ≡ (ok tt, empty)
mutate-undo_mutate_example =
    mutate-undo_mutate sample_externals empty changes refl (one_more (one_more none_left))
