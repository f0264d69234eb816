-- ===== src/GameState/Laws.antt =====
-- What the cache of game states holds after each operation, and when a look-up panics.
use blockscape.BTreeMap
use blockscape.BTreeMap.{BTreeMap, IsSorted, Ascends, get_below, get-insert, insert-Ascends}
use blockscape.HashMap
use blockscape.PlotMap.{PlotMap}
use blockscape.Coord.{Coord, coord_eq, coord_beq_iff}
use blockscape.GameState.{
  GameStateCache, new, or_new, drop_after, drop_after_of, cache_state, is_after,
}
use blockscape.Base.{
  ℕ, suc, ◌<◌, ◌≡◌, ◌≢◌, refl, inl, inr, ◌&&◌, Option, none, some, [], ◌∷◌, ltb, nat_eq, ◌==◌,
  if◌then◌else◌, Bool-cases, Option-cases, arith,
}

module _ {S : Type 0} where
  -- The state of a plot in the map of a tick.
  abbrev pub plot_at : BTreeMap (PlotMap S) → ℕ → Coord → Option S
  plot_at m t p = HashMap.get p (or_new (BTreeMap.get t m))

  -- The state that the cache holds of a plot at a tick.
  abbrev pub state_at : GameStateCache S → ℕ → Coord → Option S
  state_at c t p = plot_at c.states t p

  -- The ticks ascend; `latest_of` names a tick at which the plot has a state, and it has none
  -- later; a plot that it does not name has no state.
  pub record IsValid (c : GameStateCache S) : Type 0 where
    pub sorted : IsSorted c.states
    pub held : (p : Coord) (l : ℕ) → HashMap.get p c.latest_of ≡ some l → state_at c l p ≢ none
    pub last :
        (p : Coord) (l t : ℕ) → HashMap.get p c.latest_of ≡ some l → l < t → state_at c t p ≡ none
    pub absent : (p : Coord) (t : ℕ) → HashMap.get p c.latest_of ≡ none → state_at c t p ≡ none

  drop_after_of-Ascends :
      (p : Coord) (k lo : ℕ) (m : BTreeMap (PlotMap S))
      → Ascends lo m
      → Ascends lo (drop_after_of p k m)
  unfolding drop_after_of
  drop_after_of-Ascends p k lo [] s = tt
  drop_after_of-Ascends p k lo ((t, plots) ∷ m) s = (s.0, drop_after_of-Ascends p k (suc t) m s.1)

  plot_at-drop_after_of :
      (p q : Coord) (k t : ℕ) (m : BTreeMap (PlotMap S))
      → plot_at (drop_after_of p k m) t q ≡ (if p == q && ltb k t then none else plot_at m t q)
  unfolding drop_after_of
  plot_at-drop_after_of p q k t [] = ground arith
  plot_at-drop_after_of p q k t ((j, plots) ∷ m) =
      ground (arith, plot_at-drop_after_of p q k t m, HashMap.get-remove p q plots)

  plot_at-insert :
      (m : BTreeMap (PlotMap S)) (k t : ℕ) (p q : Coord) (s : S)
      → plot_at (BTreeMap.insert k (HashMap.insert p s (or_new (BTreeMap.get k m))) m) t q
        ≡ (if p == q && k == t then some s else plot_at m t q)
  plot_at-insert m k t p q s = ground (
    arith,
    get-insert k t (HashMap.insert p s (or_new (BTreeMap.get k m))) m,
    HashMap.get-insert p q s (or_new (BTreeMap.get k m)),
  )

  -- After caching a state, the plot has it at its tick, nothing later, and what it had before;
  -- other plots are as they were.
  pub state_at-cache_state :
      (c : GameStateCache S) (k t : ℕ) (p q : Coord) (s : S)
      → IsValid c
      → state_at (cache_state c k p s) t q ≡ (
          if p == q
          then (if k == t then some s else if ltb k t then none else state_at c t q)
          else state_at c t q)
  unfolding cache_state drop_after
  state_at-cache_state c k t p q s v =
      let m1 = BTreeMap.insert k (HashMap.insert p s (or_new (BTreeMap.get k c.states))) c.states in
      elim (Option-cases (HashMap.get p c.latest_of)) [
        | inl e ↦
            rw (e, cache_state)
              (ground (arith, plot_at-insert c.states k t p q s, v.absent p t e, coord_beq_iff p q))
        | inr (l, e) ↦
            rw (e, cache_state)
              (ground (
                arith,
                plot_at-insert c.states k t p q s,
                plot_at-drop_after_of p q k t m1,
                v.last p l t e,
                coord_beq_iff p q,
              ))
      ]

  latest_of-cache_state :
      (c : GameStateCache S) (k : ℕ) (p q : Coord) (s : S)
      → HashMap.get q (cache_state c k p s).latest_of
        ≡ (if p == q then some k else HashMap.get q c.latest_of)
  unfolding cache_state drop_after
  latest_of-cache_state c k p q s = ground (arith, HashMap.get-insert p q k c.latest_of)

  cache_state-IsSorted :
      (c : GameStateCache S) (k : ℕ) (p : Coord) (s : S)
      → IsValid c
      → IsSorted (cache_state c k p s).states
  unfolding cache_state drop_after
  cache_state-IsSorted c k p s v =
      let plots = HashMap.insert p s (or_new (BTreeMap.get k c.states)) in
      let a = insert-Ascends k plots c.states 0 (omega arith) v.sorted in
      elim (Bool-cases (is_after (HashMap.get p c.latest_of) k)) [
        | inl e ↦
            rw (e, cache_state) (drop_after_of-Ascends p k 0 (BTreeMap.insert k plots c.states) a)
        | inr e ↦ rw (e, cache_state) a
      ]

  -- Caching a state keeps the cache well formed.
  pub cache_state-IsValid :
      (c : GameStateCache S) (k : ℕ) (p : Coord) (s : S) → IsValid c → IsValid (cache_state c k p s)
  cache_state-IsValid c k p s v = record {
    sorted = cache_state-IsSorted c k p s v;
    held = λ q l e.
        let a = state_at-cache_state c k l p q s v in
        let b = latest_of-cache_state c k p q s in
        elim (Bool-cases (p == q)) [
          | inl same ↦ λ h. ground arith
          | inr other ↦ λ h. v.held q l (ground arith) (ground arith)
        ];
    last = λ q l t e lt.
        let a = state_at-cache_state c k t p q s v in
        let b = latest_of-cache_state c k p q s in
        elim (Bool-cases (p == q)) [
          | inl same ↦ ground arith
          | inr other ↦ ground (arith, v.last q l t (ground arith) lt)
        ];
    absent = λ q t e.
        let a = state_at-cache_state c k t p q s v in
        let b = latest_of-cache_state c k p q s in
        elim (Bool-cases (p == q)) [
          | inl same ↦ absurd (ground arith)
          | inr other ↦ ground (arith, v.absent q t (ground arith))
        ];
  }

  -- The empty cache is well formed.
  pub new-IsValid : IsValid (new {S = S})
  unfolding new
  new-IsValid = record {
    sorted = tt;
    held = λ p l h. ground arith;
    last = λ p l h. ground arith;
    absent = λ p t h. refl;
  }
