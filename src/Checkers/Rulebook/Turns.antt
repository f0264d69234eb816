-- ===== src/Checkers/Rulebook/Turns.antt =====
-- The turns of games (`Turns` of checkers/src/rules/turns.rs).
use blockscape.BTreeMap
use blockscape.HashMap
use blockscape.HashMap.{HashMap}
use blockscape.Coord.{Coord, coord_eq}
use blockscape.Event.{RawEvent, RawEvents}
use blockscape.Mutation.{Change}
use blockscape.Checkers.Piece.{Event, start, join}
use blockscape.Checkers.Rulebook.{
  Verdict, ok, invalid, panic, ◌>>=◌, ensure, unwrap, read, first, GameEvent, get_events,
}
use blockscape.Base.{
  ℕ, ◌+◌, ◌-◌, ◌%◌, Bool, true, false, not, ◌&&◌, ◌||◌, Option, none, some, List, [], ◌∷◌, Bin, leb,
  nat_eq, ◌==◌, if◌then◌else◌,
}

-- The players of the games seen, with the last turn of each.
abbrev pub Boards : Type 0
Boards = HashMap Coord (ℕ × ℕ × ℕ)

abbrev pub is_nil : {A : Type 0} → List A → Bool
is_nil [] = true
is_nil (x ∷ l) = false

abbrev pub is_join : Event → Bool
is_join (join p) = true
is_join _ = false

module _ (plot_events : Coord → ℕ → Verdict RawEvents) (decode : Bin → Option Event) where
  -- The players that a stored event names; an event of another kind is unreachable.
  abbrev pub players_of : Event → Verdict (ℕ × ℕ)
  players_of (start p1 p2) = ok (p1, p2)
  players_of _ = panic

  abbrev pub joiner_of : Event → Verdict ℕ
  joiner_of (join p) = ok p
  joiner_of _ = panic

  abbrev pub stored : List RawEvent → Verdict Event
  stored l = first l >>= λ e. read (decode e)

  -- A new game.
  abbrev pub start_game : GameEvent → Event → Boards → Verdict Boards
  start_game e (start p1 p2) boards = do
    events ← plot_events e.from 0
    _ ← ensure (is_nil events)
    _ ← ensure (p1 == e.player || p2 == e.player)
    ok (HashMap.insert e.from (p1, p2, e.tick) boards)
  start_game e _ boards = invalid

  -- The players of a game that is joined: those seen, or those of the stored start.
  abbrev pub players_to_join : GameEvent → Option (ℕ × ℕ × ℕ) → Verdict (ℕ × ℕ)
  players_to_join e (some b) = ok (b.0, b.1)
  players_to_join e none = do
    events ← plot_events e.from 0
    _ ← ensure (BTreeMap.contains_key 0 events)
    _ ← ensure (not (BTreeMap.contains_key 1 events))
    l ← unwrap (BTreeMap.get 0 events)
    event ← stored l
    players_of event

  abbrev pub take_seat : GameEvent → ℕ → ℕ × ℕ → Boards → Verdict Boards
  take_seat e player players boards =
      if players.0 == 0
      then ok (HashMap.insert e.from (player, players.1, e.tick) boards)
      else if players.1 == 0
      then ok (HashMap.insert e.from (players.0, player, e.tick) boards)
      else invalid

  abbrev pub join_game : GameEvent → Event → Boards → Verdict Boards
  join_game e (join player) boards = do
    players ← players_to_join e (HashMap.get e.from boards)
    take_seat e player players (HashMap.remove e.from boards)
  join_game e _ boards = invalid

  -- The board of a stored game that was joined; with both seats taken before, none is kept.
  abbrev pub seat_joined : GameEvent → ℕ → ℕ × ℕ → Boards → Boards
  seat_joined e player players boards =
      if players.0 == 0
      then HashMap.insert e.from (player, players.1, e.tick) boards
      else if players.1 == 0
      then HashMap.insert e.from (players.0, player, e.tick) boards
      else boards

  abbrev pub known_players : GameEvent → Option (List RawEvent) → ℕ × ℕ → Boards → Verdict Boards
  known_players e none players boards =
      ok (HashMap.insert e.from (players.0, players.1, e.tick) boards)
  known_players e (some l) players boards = do
    event ← stored l
    player ← joiner_of event
    ok (seat_joined e player players boards)

  -- A turn of a game not seen before.
  abbrev pub resume_game : GameEvent → Boards → Verdict Boards
  resume_game e boards = do
    events ← plot_events e.from 0
    _ ← ensure (BTreeMap.contains_key 0 events)
    _ ← ensure (e.tick == 2 || BTreeMap.contains_key (e.tick - 1) events)
    _ ← ensure (not (BTreeMap.contains_key e.tick events))
    l ← unwrap (BTreeMap.get 0 events)
    event ← stored l
    players ← players_of event
    known_players e (BTreeMap.get 1 events) players boards

  abbrev pub next_turn : GameEvent → Option (ℕ × ℕ × ℕ) → Boards → Verdict Boards
  next_turn e none boards = resume_game e boards
  next_turn e (some b) boards =
      ensure (b.2 + 1 == e.tick || (e.tick == 0 && is_join e.event)) >>= λ _.
      ok (HashMap.insert e.from (b.0, b.1, e.tick) (HashMap.remove e.from boards))

  -- The turn of an event, by its tick.
  abbrev pub take_turn : GameEvent → Boards → Verdict Boards
  take_turn e boards =
      if e.tick == 0
      then start_game e e.event boards
      else if e.tick == 1
      then join_game e e.event boards
      else next_turn e (HashMap.get e.from boards) boards

  abbrev pub turn_step : GameEvent → Boards → Verdict Boards
  turn_step e boards =
      ensure (leb e.tick 500) >>= λ _. ensure (is_nil e.to) >>= λ _. take_turn e boards

  -- The first loop.
  unfoldable pub all_turns : List GameEvent → Boards → Verdict Boards
  all_turns [] boards = ok boards
  all_turns (e ∷ events) boards = turn_step e boards >>= all_turns events

  abbrev pub on_turn : GameEvent → ℕ × ℕ × ℕ → Verdict (Unit {0})
  on_turn e b = ensure (not (b.0 == 0) && not (b.1 == 0)) >>= λ _.
      ensure (if e.tick % 2 == 0 then e.player == b.0 else e.player == b.1)

  abbrev pub check_player : Boards → GameEvent → Verdict (Unit {0})
  check_player boards e =
      if e.tick == 0 then ok tt else (unwrap (HashMap.get e.from boards) >>= on_turn e)

  -- The second loop: players play on their own turns.
  unfoldable pub check_players : Boards → List GameEvent → Verdict (Unit {0})
  check_players boards [] = ok tt
  check_players boards (e ∷ events) = check_player boards e >>= λ _. check_players boards events

  abbrev pub rule_on : List GameEvent → Verdict (Unit {0})
  rule_on events = all_turns events [] >>= λ boards. check_players boards events

  -- `Turns::is_valid`
  unfoldable pub is_valid : List (Change × ℕ) → Verdict (Unit {0})
  unfolding all_turns check_players get_events
  is_valid mutation = get_events decode mutation >>= rule_on
