-- ===== src/Checkers/Rulebook.antt =====
-- The rules of checkers on a block chain (checkers/src/rules): the game events of a mutation, in the
-- order of their plots and ticks. What the rules read from the network state, the events of a plot
-- from a tick on, and the reading of events are parameters. Texts of errors are left out.
pub mod Turns
pub mod Game
pub mod Boards
pub mod Fair
pub mod Replay
use Prim.Native.Nat.{Ordering}
use blockscape.Coord.{Coord, cmp}
use blockscape.Event.{RawEvent, RawEvents}
use blockscape.Mutation.{
  Change, admin, block_reward, plot_event, new_validator, slash, transfer, PlotEvent,
}
use blockscape.Checkers.Piece.{Event}
use blockscape.Base.{
  ℕ, Bool, true, false, Option, none, some, List, [], ◌∷◌, Bin, leb, if◌then◌else◌,
}

-- What a rule gives: `invalid` breaks a rule, `failed` is an error of the database or in reading.
pub data Verdict (A : Type 0) : Type 0 where
  ok : A → Verdict A
  invalid failed panic : Verdict A

infixl 5 ◌>>=◌
abbrev pub ◌>>=◌ : {A B : Type 0} → Verdict A → (A → Verdict B) → Verdict B
ok a >>= f = f a
invalid >>= f = invalid
failed >>= f = failed
panic >>= f = panic

-- `assert_mut_valid`
abbrev pub ensure : Bool → Verdict (Unit {0})
ensure true = ok tt
ensure false = invalid

-- `unwrap`
abbrev pub unwrap : {A : Type 0} → Option A → Verdict A
unwrap none = panic
unwrap (some a) = ok a

-- An error in reading, passed on.
abbrev pub read : {A : Type 0} → Option A → Verdict A
read none = failed
read (some a) = ok a

-- `list[0]`
abbrev pub first : List RawEvent → Verdict RawEvent
first [] = panic
first (e ∷ l) = ok e

-- An event of a plot with the account that sent it.
pub record GameEvent : Type 0 where
  pub from : Coord
  pub to : List Coord
  pub tick : ℕ
  pub event : Event
  pub player : ℕ

-- `a.from.cmp(&b.from).then(a.tick.cmp(&b.tick))`, as whether the first may stand before.
abbrev pub before : GameEvent → GameEvent → Bool
before a b = elim (cmp a.from b.from) [
  | Ordering.lt ↦ true
  | Ordering.gt ↦ false
  | Ordering.eq ↦ leb a.tick b.tick
]

abbrev pub place : GameEvent → List GameEvent → List GameEvent
place e [] = e ∷ []
place e (x ∷ xs) = if before e x then e ∷ x ∷ xs else x ∷ place e xs

-- `sort_by`, which is stable.
unfoldable pub sort : List GameEvent → List GameEvent
unfolding cmp
sort [] = []
sort (e ∷ l) = place e (sort l)

module _ (decode : Bin → Option Event) where
  abbrev pub game_event : PlotEvent → ℕ → Verdict GameEvent
  game_event e player = read (decode e.event) >>= λ event.
      ok (record { from = e.from; to = e.to; tick = e.tick; event = event; player = player })

  -- The game events of the changes, of which the others are passed over.
  unfoldable pub collect : List (Change × ℕ) → Verdict (List GameEvent)
  collect [] = ok []
  collect ((plot_event e, player) ∷ mutation) =
      game_event e player >>= λ x. collect mutation >>= λ l. ok (x ∷ l)
  collect (_ ∷ mutation) = collect mutation

  unfoldable pub get_events : List (Change × ℕ) → Verdict (List GameEvent)
  unfolding collect sort
  get_events mutation = collect mutation >>= λ l. ok (sort l)

  -- `ValidEvent`: every plot event can be read.
  unfoldable pub valid_event : List (Change × ℕ) → Verdict (Unit {0})
  valid_event [] = ok tt
  valid_event ((plot_event e, player) ∷ mutation) = elim (decode e.event) [
    | none ↦ invalid
    | some event ↦ valid_event mutation
  ]
  valid_event (_ ∷ mutation) = valid_event mutation
