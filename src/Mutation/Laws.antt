-- ===== src/Mutation/Laws.antt =====
-- Sizes and ticks of mutations.
use Prim.Native.Nat.{min, max}
use blockscape.Mutation.{
  Change, plot_event, Mutation, merge, sizes, calculate_size, event_ticks, foldl_min, foldl_max,
  u64_max, earliest_game_event, latest_game_event,
}
use blockscape.Base.{ℕ, ◌+◌, ◌≤◌, ◌≡◌, refl, ◌∙◌, ap, false, some, List, [], ◌∷◌, ◌++◌, arith}

sizes-append : (cs ds : List Change) → sizes (cs ++ ds) ≡ sizes cs + sizes ds
sizes-append [] ds = omega arith
sizes-append (c ∷ cs) ds = omega (arith, sizes-append cs ds)

event_ticks-append :
    (cs ds : List Change) → event_ticks (cs ++ ds) ≡ event_ticks cs ++ event_ticks ds
unfolding event_ticks
event_ticks-append [] ds = refl
event_ticks-append (plot_event e ∷ cs) ds = ap (◌∷◌ e.tick) (event_ticks-append cs ds)
event_ticks-append (_ ∷ cs) ds = event_ticks-append cs ds

foldl_min-min : (a b : ℕ) (ts : List ℕ) → foldl_min (min a b) ts ≡ min a (foldl_min b ts)
foldl_min-min a b [] = refl
foldl_min-min a b (t ∷ ts) = ap (λ x. foldl_min x ts) (omega arith) ∙ foldl_min-min a (min b t) ts

foldl_max-max : (a b : ℕ) (ts : List ℕ) → foldl_max (max a b) ts ≡ max a (foldl_max b ts)
foldl_max-max a b [] = refl
foldl_max-max a b (t ∷ ts) = ap (λ x. foldl_max x ts) (omega arith) ∙ foldl_max-max a (max b t) ts

foldl_min-append : (a : ℕ) (ts us : List ℕ) → foldl_min a (ts ++ us) ≡ foldl_min (foldl_min a ts) us
foldl_min-append a [] us = refl
foldl_min-append a (t ∷ ts) us = foldl_min-append (min a t) ts us

foldl_max-append : (a : ℕ) (ts us : List ℕ) → foldl_max a (ts ++ us) ≡ foldl_max (foldl_max a ts) us
foldl_max-append a [] us = refl
foldl_max-append a (t ∷ ts) us = foldl_max-append (max a t) ts us

-- The ticks of a list lie between two bounds.
abbrev pub Between : ℕ → ℕ → List ℕ → Type 0
Between lo hi [] = Unit
Between lo hi (t ∷ ts) = (lo ≤ t) × (t ≤ hi) × Between lo hi ts

Between-mono :
    (lo lo' hi hi' : ℕ) (ts : List ℕ) → lo' ≤ lo → hi ≤ hi' → Between lo hi ts → Between lo' hi' ts
Between-mono lo lo' hi hi' [] a b h = tt
Between-mono lo lo' hi hi' (t ∷ ts) a b h =
    (omega arith, omega arith, Between-mono lo lo' hi hi' ts a b h.2)

foldl_min-le : (a : ℕ) (ts : List ℕ) → foldl_min a ts ≤ a
foldl_min-le a [] = omega arith
foldl_min-le a (t ∷ ts) = omega (arith, foldl_min-le (min a t) ts)

le-foldl_max : (a : ℕ) (ts : List ℕ) → a ≤ foldl_max a ts
le-foldl_max a [] = omega arith
le-foldl_max a (t ∷ ts) = omega (arith, le-foldl_max (max a t) ts)

foldl-Between : (a b : ℕ) (ts : List ℕ) → Between (foldl_min a ts) (foldl_max b ts) ts
foldl-Between a b [] = tt
foldl-Between a b (t ∷ ts) = (
  omega (arith, foldl_min-le (min a t) ts),
  omega (arith, le-foldl_max (max b t) ts),
  foldl-Between (min a t) (max b t) ts,
)

-- Every plot event of a mutation lies between its earliest and its latest game event.
pub game_events_bounds :
    (m : Mutation) → Between (earliest_game_event m) (latest_game_event m) (event_ticks m.changes)
unfolding earliest_game_event latest_game_event
game_events_bounds m = foldl-Between u64_max 0 (event_ticks m.changes)

-- Two mutations that are no contras merge into the changes of the first and then those of the
-- second; the sizes add up but for one header, and the earliest and the latest game events are the
-- lesser and the greater of the two.
pub merge_lem :
    (m n : Mutation)
    → m.contra ≡ false
    → n.contra ≡ false
    → (r : Mutation) × (merge m n ≡ some r)
      × (r.changes ≡ m.changes ++ n.changes)
      × (calculate_size r + 9 ≡ calculate_size m + calculate_size n)
      × (earliest_game_event r ≡ min (earliest_game_event m) (earliest_game_event n))
      × (latest_game_event r ≡ max (latest_game_event m) (latest_game_event n))
unfolding merge calculate_size earliest_game_event latest_game_event
merge_lem m n a b =
    let ts = event_ticks m.changes in
    let us = event_ticks n.changes in
    (
      record m { changes = m.changes ++ n.changes },
      rw (a, b, merge),
      refl,
      omega (arith, sizes-append m.changes n.changes),
      rw (event_ticks-append m.changes n.changes, foldl_min-append u64_max ts us)
          (ap (λ x. foldl_min x us) (omega (arith, foldl_min-le u64_max ts))
            ∙ foldl_min-min (foldl_min u64_max ts) u64_max us),
      rw (event_ticks-append m.changes n.changes, foldl_max-append 0 ts us)
          (ap (λ x. foldl_max x us) (omega arith) ∙ foldl_max-max (foldl_max 0 ts) 0 us),
    )
