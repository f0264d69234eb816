-- ===== src/GameState/Lookup.antt =====
-- What a look-up in the cache of game states answers, and when it panics.
use mathlib.Core.Option
use blockscape.BTreeMap.{BTreeMap, Ascends, get_below}
use blockscape.HashMap
use blockscape.PlotMap.{PlotMap}
use blockscape.Coord.{Coord, coord_eq}
use blockscape.GameState.{
  GameStateCache, Fallible, done, panic, last_at, latest, drop_plot, remove_all, unwrap_at,
}
use blockscape.GameState.Laws.{plot_at, state_at, IsValid}
use blockscape.Base.{
  ℕ, suc, ◌≤◌, ◌<◌, ◌≡◌, refl, inl, inr, Option, none, some, [], ◌∷◌, leb, nat_eq, if◌then◌else◌,
  Bool-cases, Option-cases, beq_refl, arith,
}

module _ {S : Type 0} where
  -- What a look-up may answer for a plot up to a tick `k`.
  abbrev pub Finds : GameStateCache S → Coord → ℕ → Fallible (Option (ℕ × S)) → Type 0
  Finds c p k (done none) = (j : ℕ) → j ≤ k → state_at c j p ≡ none
  Finds c p k (done (some (t, s))) =
      (t ≤ k) × (state_at c t p ≡ some s) × ((j : ℕ) → t < j → j ≤ k → state_at c j p ≡ none)
  Finds c p k panic = ⊥

  -- What `last_at` finds.
  abbrev FindsIn : BTreeMap (PlotMap S) → Coord → ℕ → Option (ℕ × S) → Type 0
  FindsIn m p k none = (j : ℕ) → j ≤ k → plot_at m j p ≡ none
  FindsIn m p k (some (t, s)) =
      (t ≤ k) × (plot_at m t p ≡ some s) × ((j : ℕ) → t < j → j ≤ k → plot_at m j p ≡ none)

  -- One entry in front of those that were searched.
  FindsIn-cons :
      (m : BTreeMap (PlotMap S)) (p : Coord) (k t : ℕ) (plots : PlotMap S) (o : Option (ℕ × S))
      → Ascends (suc t) m
      → FindsIn m p k o
      → FindsIn ((t, plots) ∷ m) p k (elim o [
        | none ↦ if leb t k then Option.map (λ (s : S). (t, s)) (HashMap.get p plots) else none
        | some found ↦ some found
      ])
  FindsIn-cons m p k t plots none s h = elim (Bool-cases (leb t k)) [
    | inl le ↦ rw le (elim (Option-cases (HashMap.get p plots)) [
      | inl e ↦ rw e (λ j g. ground (arith, h j))
      | inr (x, e) ↦ rw e (ground arith, ground arith, λ j a b. ground (arith, h j))
    ])
    | inr gt ↦ rw gt (λ j g. ground (arith, h j))
  ]
  FindsIn-cons m p k t plots (some (i, x)) s h =
      let later : t < i = ground (arith, get_below i m (suc t) s, h.1) in
      (h.0, ground (arith, h.1), λ j a b. ground (arith, h.2 j))

  last_at-FindsIn :
      (m : BTreeMap (PlotMap S)) (p : Coord) (k lo : ℕ)
      → Ascends lo m
      → FindsIn m p k (last_at p k m)
  unfolding last_at
  last_at-FindsIn [] p k lo s = λ j h. refl
  last_at-FindsIn ((t, plots) ∷ m) p k lo s =
      FindsIn-cons m p k t plots (last_at p k m) s.1 (last_at-FindsIn m p k (suc t) s.1)

  FindsIn→Finds :
      (c : GameStateCache S) (p : Coord) (k : ℕ) (o : Option (ℕ × S))
      → FindsIn c.states p k o
      → Finds c p k (done o)
  FindsIn→Finds c p k none h = h
  FindsIn→Finds c p k (some x) h = h

  -- The look-up at the latest tick of a plot, in a well-formed cache.
  unwrap_at-Finds :
      (c : GameStateCache S) (p : Coord) (k l : ℕ)
      → IsValid c
      → HashMap.get p c.latest_of ≡ some l
      → l ≤ k
      → Finds c p k (unwrap_at l (state_at c l p))
  unwrap_at-Finds c p k l v e h = elim (Option-cases (state_at c l p)) [
    | inl g ↦ absurd (v.held p l e g)
    | inr (x, g) ↦ rw g (h, g, λ j a b. v.last p l j e a)
  ]

  -- In a well-formed cache a look-up up to a tick never panics: it gives the state of the last tick
  -- that is not later and has one, or nothing if there is none.
  pub latest-Finds :
      (c : GameStateCache S) (p : Coord) (k : ℕ) → IsValid c → Finds c p k (latest c p (some k))
  unfolding latest
  latest-Finds c p k v = elim (Option-cases (HashMap.get p c.latest_of)) [
    | inl e ↦ rw (e, latest) (λ j h. v.absent p j e)
    | inr (l, e) ↦
        rw (e, latest)
          (elim (Bool-cases (leb l k)) [
            | inl le ↦ rw le (unwrap_at-Finds c p k l v e (ground arith))
            | inr gt ↦ rw gt (
                FindsIn→Finds c p k (last_at p k c.states)
                  (last_at-FindsIn c.states p k 0 v.sorted))
          ])
  ]

  plot_at-remove_all :
      (m : BTreeMap (PlotMap S)) (t : ℕ) (p : Coord) → plot_at (remove_all p m) t p ≡ none
  plot_at-remove_all [] t p = refl
  plot_at-remove_all ((j, plots) ∷ m) t p =
      ground (arith, plot_at-remove_all m t p, HashMap.get-remove p p plots, beq_refl p)

  -- `drop_plot` leaves the plot in `latest`: after it, the look-up of the latest state of every
  -- plot that had one panics.
  pub latest-drop_plot :
      (c : GameStateCache S) (p : Coord) (l : ℕ)
      → HashMap.get p c.latest_of ≡ some l
      → latest (drop_plot c p) p none ≡ panic
  unfolding latest drop_plot
  latest-drop_plot c p l e = rw (e, latest) (rw (plot_at-remove_all c.states l p))
