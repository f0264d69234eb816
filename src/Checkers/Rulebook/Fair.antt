-- ===== src/Checkers/Rulebook/Fair.antt =====
-- What a mutation has whose turns are accepted.
use blockscape.HashMap
use blockscape.Coord.{Coord, coord_eq}
use blockscape.Event.{RawEvents}
use blockscape.Mutation.{Change}
use blockscape.Checkers.Piece.{Event}
use blockscape.Checkers.Rulebook.{
  Verdict, ok, invalid, failed, panic, ◌>>=◌, ensure, unwrap, GameEvent, get_events,
}
use blockscape.Checkers.Rulebook.Turns.{
  Boards, all_turns, turn_step, take_turn, check_players, check_player, on_turn, rule_on, is_valid,
  is_nil,
}
use blockscape.Base.{
  ℕ, ◌%◌, ◌≡◌, ◌≤◌, ◌⊎◌, inl, inr, refl, Bool, true, false, not, ◌&&◌, Option, none, some, List, [],
  ◌∷◌, Bin, leb, nat_eq, ◌==◌, if◌then◌else◌, arith, Bool-cases,
}

bind_ok :
    {A B : Type 0} (m : Verdict A) (f : A → Verdict B) (b : B)
    → (m >>= f) ≡ ok b
    → (a : A) × (m ≡ ok a) × (f a ≡ ok b)
bind_ok (ok a) f b h = (a, refl, h)
bind_ok invalid f b h = absurd (cc)
bind_ok failed f b h = absurd (cc)
bind_ok panic f b h = absurd (cc)

ensure_then :
    {B : Type 0} (t : Bool) (k : Unit {0} → Verdict B) (b : B)
    → (ensure t >>= k) ≡ ok b
    → (t ≡ true) × (k tt ≡ ok b)
ensure_then true k b h = (refl, h)
ensure_then false k b h = absurd (cc)

unwrap_ok : {A : Type 0} (o : Option A) (a : A) → unwrap o ≡ ok a → o ≡ some a
unwrap_ok none a h = absurd (cc)
unwrap_ok (some b) a h = ground arith

is_nil_eq : {A : Type 0} (l : List A) → is_nil l ≡ true → l ≡ []
is_nil_eq [] h = refl
is_nil_eq (x ∷ l) h = absurd (cc)

own_seat :
    (t : Bool) (p a b : ℕ)
    → ensure (if t then p == a else p == b) ≡ ok tt
    → p ≡ (if t then a else b)
own_seat true p a b h = elim (Bool-cases (p == a)) [
  | inl g ↦ ground (arith, g)
  | inr g ↦ absurd (ground (arith, g, h))
]
own_seat false p a b h = elim (Bool-cases (p == b)) [
  | inl g ↦ ground (arith, g)
  | inr g ↦ absurd (ground (arith, g, h))
]

-- What an event has in a mutation that is accepted, with the seats that the games have at its end.
pub record IsFair (boards : Boards) (e : GameEvent) : Type 0 where
  pub in_time : e.tick ≤ 500
  pub alone : e.to ≡ []
  pub on_turn :
      (e.tick ≡ 0)
      ⊎ ((b : ℕ × ℕ × ℕ) × (HashMap.get e.from boards ≡ some b)
          × ((b.0 == 0) ≡ false)
          × ((b.1 == 0) ≡ false)
          × (e.player ≡ (if e.tick % 2 == 0 then b.0 else b.1)))

abbrev pub AllFair : Boards → List GameEvent → Type 0
AllFair boards [] = Unit {0}
AllFair boards (e ∷ events) = IsFair boards e × AllFair boards events

module _ (plot_events : Coord → ℕ → Verdict RawEvents) (decode : Bin → Option Event) where
  -- What the first loop checks of every event.
  abbrev AllTimed : List GameEvent → Type 0
  AllTimed [] = Unit {0}
  AllTimed (e ∷ events) = ((e.tick ≤ 500) × (e.to ≡ [])) × AllTimed events

  all_turns-AllTimed :
      (events : List GameEvent) (boards out : Boards)
      → all_turns plot_events decode events boards ≡ ok out
      → AllTimed events
  unfolding all_turns
  all_turns-AllTimed [] boards out h = tt
  all_turns-AllTimed (e ∷ events) boards out h =
      let (next, g, rest) =
        bind_ok (turn_step plot_events decode e boards) (all_turns plot_events decode events) out
          h in
      let timed =
        ensure_then (leb e.tick 500)
          (λ _. ensure (is_nil e.to) >>= λ _. take_turn plot_events decode e boards) next g in
      let alone =
        ensure_then (is_nil e.to) (λ _. take_turn plot_events decode e boards) next timed.1 in
      ((ground (arith, timed.0), is_nil_eq e.to alone.0), all_turns-AllTimed events next out rest)

  seat_of :
      (boards : Boards) (e : GameEvent)
      → e.tick ≤ 500
      → e.to ≡ []
      → check_player plot_events decode boards e ≡ ok tt
      → IsFair boards e
  seat_of boards e t a h = elim (Bool-cases (e.tick == 0)) [
    | inl z ↦ record { in_time = t; alone = a; on_turn = inl (ground arith) }
    | inr z ↦
        let g : (unwrap (HashMap.get e.from boards) >>= on_turn plot_events decode e) ≡ ok tt =
          ground (arith, h) in
        let (b, found, r) =
          bind_ok (unwrap (HashMap.get e.from boards)) (on_turn plot_events decode e) tt g in
        let seats =
          ensure_then (not (b.0 == 0) && not (b.1 == 0))
            (λ _. ensure (if e.tick % 2 == 0 then e.player == b.0 else e.player == b.1)) tt r in
        record {
          in_time = t;
          alone = a;
          on_turn = inr (
            b,
            unwrap_ok (HashMap.get e.from boards) b found,
            ground (arith, seats.0),
            ground (arith, seats.0),
            own_seat (e.tick % 2 == 0) e.player b.0 b.1 seats.1,
          );
        }
  ]

  check_players-AllFair :
      (boards : Boards) (events : List GameEvent)
      → AllTimed events
      → check_players plot_events decode boards events ≡ ok tt
      → AllFair boards events
  unfolding check_players
  check_players-AllFair boards [] t h = tt
  check_players-AllFair boards (e ∷ events) t h =
      let (u, first, rest) =
        bind_ok (check_player plot_events decode boards e)
          (λ _. check_players plot_events decode boards events) tt h in
      (seat_of boards e t.0.0 t.0.1 first, check_players-AllFair boards events t.1 rest)

  -- If the turns of a mutation are accepted, its events can be read and lead to seats of the games
  -- such that every event is at most at tick 500, goes to one plot only, and, unless it starts a
  -- game, is sent by the account whose turn it is in a game with both seats taken: the first seat at
  -- an even tick, the second at an odd one.
  pub is_valid-AllFair :
      (mutation : List (Change × ℕ))
      → is_valid plot_events decode mutation ≡ ok tt
      → (events : List GameEvent) × (boards : Boards) × (get_events decode mutation ≡ ok events)
        × (all_turns plot_events decode events [] ≡ ok boards)
        × AllFair boards events
  unfolding is_valid
  is_valid-AllFair mutation h =
      let (events, g, h1) =
        bind_ok (get_events decode mutation) (rule_on plot_events decode) tt h in
      let (boards, a, h2) =
        bind_ok (all_turns plot_events decode events [])
          (λ boards. check_players plot_events decode boards events) tt h1 in
      (
        events,
        boards,
        g,
        a,
        check_players-AllFair boards events (all_turns-AllTimed events [] boards a) h2,
      )
