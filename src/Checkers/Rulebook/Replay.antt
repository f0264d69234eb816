-- ===== src/Checkers/Rulebook/Replay.antt =====
-- How the rule of the game uses its cache.
use blockscape.Coord.{Coord, coord_eq}
use blockscape.Event.{RawEvents}
use blockscape.GameState.{done, latest, cache_state}
use blockscape.GameState.Laws.{IsValid, state_at, state_at-cache_state}
use blockscape.Checkers.Piece
use blockscape.Checkers.Piece.{Event, Player, from_turn}
use blockscape.Checkers.Board.{Board}
use blockscape.Checkers.Play.{Outcome, play}
use blockscape.Checkers.Rulebook.{Verdict, ok, GameEvent}
use blockscape.Checkers.Rulebook.Game.{Cache, game_step, start_from, judged, next_cache}
use blockscape.Base.{
  ℕ, ◌-◌, ◌+◌, ◌≡◌, ◌≤◌, refl, ap, ◌∙◌, false, Option, some, Bin, ltb, nat_eq, beq_refl, sym, arith,
}

module _ (plot_events : Coord → ℕ → Verdict RawEvents) (decode : Bin → Option Event) where
  judged_step :
      (e : GameEvent) (cache : Cache) (o : Option (ℕ × Board)) (b : Board) (p : Player)
      → ltb e.tick 2 ≡ false
      → from_turn e.tick ≡ Piece.ok p
      → latest cache e.from (some (e.tick - 1)) ≡ done o
      → (start_from plot_events decode o).1 ≡ b
      → ltb ((start_from plot_events decode o).0 + 1) e.tick ≡ false
      → game_step plot_events decode e cache
        ≡ next_cache plot_events decode e cache (judged (play b e.event p))
  judged_step e cache o b p h q g k l = rw (h, g, l, k, q) refl

  kept_board :
      (e : GameEvent) (cache next : Cache) (b : Board) (o : Outcome (Unit {0}))
      → IsValid cache
      → next_cache plot_events decode e cache (judged o) ≡ ok next
      → (b' : Board) × (o ≡ (b', Piece.ok tt)) × (state_at next e.tick e.from ≡ some b')
  kept_board e cache next b (b', Piece.err x) v h = absurd (cc)
  kept_board e cache next b (b', Piece.ok u) v h =
      let same : cache_state cache e.tick e.from b' ≡ next = cc in
      (
        b',
        refl,
        ap (λ c. state_at c e.tick e.from) (sym same)
            ∙ state_at-cache_state cache e.tick e.tick e.from e.from b' v
            ∙ rw (beq_refl e.from, beq_refl e.tick) refl,
      )

  -- With the board before an event in a well-formed cache, the rule accepts the event only if it
  -- can be played on that board by the player of its turn, and the cache then holds, for the plot
  -- and the tick of the event, the board that this leaves.
  pub game_step_lem :
      (e : GameEvent) (cache next : Cache) (b : Board) (p : Player)
      → IsValid cache
      → 2 ≤ e.tick
      → from_turn e.tick ≡ Piece.ok p
      → latest cache e.from (some (e.tick - 1)) ≡ done (some (e.tick - 1, b))
      → game_step plot_events decode e cache ≡ ok next
      → (b' : Board) × (play b e.event p ≡ (b', Piece.ok tt))
        × (state_at next e.tick e.from ≡ some b')
  game_step_lem e cache next b p v h q g r = kept_board e cache next b (play b e.event p) v (
      sym (judged_step e cache (some (e.tick - 1, b)) b p (ground arith) q g refl (ground arith))
      ∙ r)
