-- ===== src/Tests/Events.antt =====
-- Examples of event lists and mutations.
use blockscape.Event.{RawEvent, RawEvents, add_event, remove_event}
use blockscape.Event.Laws.{IsValid, remove_event-add_event}
use blockscape.Mutation.{Mutation, PlotEvent, plot_event, new_validator, admin}
use blockscape.Base.{ℕ, ◌≡◌, refl, true, false, none, [], ◌∷◌, nat_eq, list_eq, list_beq, arith}
use blockscape.Base.Int.{pos}

abbrev e1 : RawEvent
e1 = 1 ∷ []

abbrev e2 : RawEvent
e2 = 2 ∷ []

abbrev e9 : RawEvent
e9 = 9 ∷ []

abbrev t3 : ℕ
t3 = 3

abbrev t7 : ℕ
t7 = 7

-- Two ticks, the first with two events.
abbrev events : RawEvents
events = (3, e1 ∷ e2 ∷ []) ∷ (7, e1 ∷ []) ∷ []

events-IsValid : IsValid events
unfolding list_beq
events-IsValid = record { sorted = omega arith; tidy = refl }

remove_event-add_event_example : remove_event (add_event events 7 e2).0 7 e2 ≡ (events, true)
unfolding list_beq
remove_event-add_event_example = remove_event-add_event events 7 e2 events-IsValid refl

abbrev game_event : ℕ → PlotEvent
game_event t = record { from = record { x = pos 0; y = pos 1 }; to = []; tick = t; event = 5 ∷ [] }

abbrev first : Mutation
first = record { contra = false; changes = plot_event (game_event 8) ∷ new_validator e1 ∷ [] }

abbrev second : Mutation
second = record { contra = false; changes = admin e1 none ∷ plot_event (game_event 4) ∷ [] }
