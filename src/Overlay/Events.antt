-- ===== src/Overlay/Events.antt =====
-- The events that a state has of a plot: those of the database, without the removed ones, with the
-- new ones.
use blockscape.Coord.{Coord, coord_eq}
use blockscape.BTreeMap
use blockscape.BTreeMap.{IsSorted, insert-Ascends, remove-Ascends, get_below, Ascends, Ascends-mono}
use blockscape.HashMap
use blockscape.HashMap.{HashMap, get-insert}
use blockscape.Event
use blockscape.Event.{RawEvent, RawEvents, add_events, remove_events}
use blockscape.Event.Laws.{
  holds, holds-add_event, holds-remove_event, event_flags, IsValid, event-IsValid,
}
use blockscape.Overlay
use blockscape.Overlay.{DbDiff, remove, add, relevant_plot}
use blockscape.Overlay.State.{remove_all, add_all, overlay_events, or_default}
use blockscape.Base.{
  ℕ, suc, ◌≤◌, ◌≡◌, refl, ap, ◌∙◌, Bool, true, false, not, ◌&&◌, ◌||◌, List, [], ◌∷◌, ltb, leb,
  nat_eq, list_eq, ◌==◌, contains, list_beq_iff, if◌then◌else◌, arith, Bool-cases, Option-cases,
  inl, inr,
}

holds-add_events :
    (l : List RawEvent) (m : RawEvents) (t j : ℕ) (x : RawEvent)
    → holds (add_events m t l) j x ≡ (holds m j x || (t == j && contains l x))
unfolding add_events
holds-add_events [] m t j x = ground arith
holds-add_events (e ∷ l) m t j x =
    ground (arith, holds-add_events l (Event.add_event m t e).0 t j x, holds-add_event m t j e x)

holds-remove_events :
    (l : List RawEvent) (m : RawEvents) (t j : ℕ) (x : RawEvent)
    → IsValid m
    → holds (remove_events m t l) j x ≡ (if t == j && contains l x then false else holds m j x)
unfolding remove_events
holds-remove_events [] m t j x v = ground arith
holds-remove_events (e ∷ l) m t j x v = ground (
  arith,
  holds-remove_events l (Event.remove_event m t e).0 t j x (event-IsValid m t e v).1,
  holds-remove_event m t j e x v.sorted,
)

remove_events-IsValid :
    (l : List RawEvent) (m : RawEvents) (t : ℕ) → IsValid m → IsValid (remove_events m t l)
unfolding remove_events
remove_events-IsValid [] m t v = v
remove_events-IsValid (e ∷ l) m t v =
    remove_events-IsValid l (Event.remove_event m t e).0 t (event-IsValid m t e v).1

holds_below :
    (m : RawEvents) (lo j : ℕ) (x : RawEvent) → Ascends lo m → suc j ≤ lo → holds m j x ≡ false
holds_below m lo j x s h = ground (arith, get_below j m lo s)

holds-add_all :
    (n m : RawEvents) (lo j : ℕ) (x : RawEvent)
    → Ascends lo n
    → holds (add_all m n) j x ≡ (holds m j x || holds n j x)
unfolding add_all
holds-add_all [] m lo j x s = ground arith
holds-add_all (e ∷ n) m lo j x s = ground (
  arith,
  holds-add_all n (add_events m e.0 e.1) (suc e.0) j x s.1,
  holds-add_events e.1 m e.0 j x,
  holds_below n (suc e.0) j x s.1,
)

holds-remove_all :
    (n m : RawEvents) (lo j : ℕ) (x : RawEvent)
    → Ascends lo n
    → IsValid m
    → holds (remove_all m n) j x ≡ (if holds n j x then false else holds m j x)
unfolding remove_all
holds-remove_all [] m lo j x s v = ground arith
holds-remove_all (e ∷ n) m lo j x s v = ground (
  arith,
  holds-remove_all n (remove_events m e.0 e.1) (suc e.0) j x s.1
      (remove_events-IsValid e.1 m e.0 v),
  holds-remove_events e.1 m e.0 j x v,
  holds_below n (suc e.0) j x s.1,
)

split_off-Ascends :
    (k : ℕ) (m : RawEvents) (lo : ℕ) → Ascends lo m → Ascends lo (BTreeMap.split_off k m)
split_off-Ascends k [] lo s = tt
split_off-Ascends k (e ∷ m) lo s = elim (Bool-cases (ltb e.0 k)) [
  | inl h ↦ rw h (
      Ascends-mono (BTreeMap.split_off k m) lo (suc e.0) (omega arith)
        (split_off-Ascends k m (suc e.0) s.1))
  | inr h ↦ rw h s
]

holds-split_off :
    (k : ℕ) (m : RawEvents) (lo j : ℕ) (x : RawEvent)
    → Ascends lo m
    → holds (BTreeMap.split_off k m) j x ≡ (leb k j && holds m j x)
holds-split_off k [] lo j x s = ground arith
holds-split_off k (e ∷ m) lo j x s =
    ground (arith, holds-split_off k m (suc e.0) j x s.1, holds_below m (suc e.0) j x s.1)

-- The events of a plot in a map.
abbrev pub events_of : HashMap Coord RawEvents → Coord → RawEvents
events_of m p = or_default (HashMap.get p m)

-- The lists of a plot are valid.
pub record IsValidAt (d : DbDiff) (p : Coord) (base : RawEvents) : Type 0 where
  pub base_valid : IsValid base
  pub new_valid : IsValid (events_of d.new_events p)
  pub del_valid : IsValid (events_of d.del_events p)

-- How a difference fits to what the database has of a plot: removed events are in the database,
-- and new ones are not.
pub record FitsPlot (d : DbDiff) (p : Coord) (base : RawEvents) : Type 0 where
  pub valid : IsValidAt d p base
  pub removed :
      (t : ℕ) (x : RawEvent) → holds (events_of d.del_events p) t x ≡ true → holds base t x ≡ true
  pub added :
      (t : ℕ) (x : RawEvent) → holds (events_of d.new_events p) t x ≡ true → holds base t x ≡ false

holds-overlay_events :
    (d : DbDiff) (id : Coord) (from j : ℕ) (x : RawEvent) (base : RawEvents)
    → IsValidAt d id base
    → holds (overlay_events d id from base) j x ≡ (
        if leb from j
        then (holds base j x && not (holds (events_of d.del_events id) j x))
          || holds (events_of d.new_events id) j x
        else holds base j x)
unfolding overlay_events Overlay.get_new_events Overlay.get_removed_events
holds-overlay_events d id from j x base f =
    let new = events_of d.new_events id in
    let del = events_of d.del_events id in
    let news = BTreeMap.split_off from new in
    let dels = BTreeMap.split_off from del in
    ground (
      arith,
      holds-add_all news (remove_all base dels) 0 j x
          (split_off-Ascends from new 0 f.new_valid.sorted),
      holds-remove_all dels base 0 j x (split_off-Ascends from del 0 f.del_valid.sorted)
          f.base_valid,
      holds-split_off from new 0 j x f.new_valid.sorted,
      holds-split_off from del 0 j x f.del_valid.sorted,
    )

-- What `remove` and `add` make of the plots.
plot-remove :
    (m : HashMap Coord RawEvents) (id p : Coord) (t : ℕ) (e : RawEvent)
    → or_default (HashMap.get p (remove m id t e).0) ≡ (
        if id == p
        then (Event.remove_event (or_default (HashMap.get p m)) t e).0
        else or_default (HashMap.get p m))
unfolding remove Event.remove_event
plot-remove m id p t e = elim (Option-cases (HashMap.get id m)) [
  | inl h ↦ ground (arith, coord_eq.beq_iff id p)
  | inr (l, h) ↦
      ground (arith, coord_eq.beq_iff id p, get-insert id p (Event.remove_event l t e).0 m)
]

flag-remove :
    (m : HashMap Coord RawEvents) (id : Coord) (t : ℕ) (e : RawEvent)
    → (remove m id t e).1 ≡ holds (or_default (HashMap.get id m)) t e
unfolding remove Event.remove_event
flag-remove m id t e = elim (Option-cases (HashMap.get id m)) [
  | inl h ↦ ground arith
  | inr (l, h) ↦ ground (arith, (event_flags l t e).1)
]

plot-add :
    (m : HashMap Coord RawEvents) (id p : Coord) (t : ℕ) (e : RawEvent)
    → or_default (HashMap.get p (add m id t e)) ≡ (
        if id == p
        then (Event.add_event (or_default (HashMap.get p m)) t e).0
        else or_default (HashMap.get p m))
unfolding add
plot-add m id p t e = elim (Option-cases (HashMap.get id m)) [
  | inl h ↦ ground (arith, coord_eq.beq_iff id p, get-insert id p (Event.add_event [] t e).0 m)
  | inr (l, h) ↦ ground (arith, coord_eq.beq_iff id p, get-insert id p (Event.add_event l t e).0 m)
]

changed-IsValid :
    (b : Bool) (m n l : RawEvents) → l ≡ (if b then n else m) → IsValid m → IsValid n → IsValid l
changed-IsValid true m n l h v w = rw h w
changed-IsValid false m n l h v w = rw h v

remove-IsValid :
    (m : HashMap Coord RawEvents) (id p : Coord) (t : ℕ) (e : RawEvent)
    → IsValid (events_of m p)
    → IsValid (events_of (remove m id t e).0 p)
remove-IsValid m id p t e v =
    changed-IsValid (id == p) (events_of m p) (Event.remove_event (events_of m p) t e).0 _
      (plot-remove m id p t e) v (event-IsValid (events_of m p) t e v).1

add-IsValid :
    (m : HashMap Coord RawEvents) (id p : Coord) (t : ℕ) (e : RawEvent)
    → IsValid (events_of m p)
    → IsValid (events_of (add m id t e) p)
add-IsValid m id p t e v =
    changed-IsValid (id == p) (events_of m p) (Event.add_event (events_of m p) t e).0 _
      (plot-add m id p t e) v (event-IsValid (events_of m p) t e v).0

holds-remove :
    (m : HashMap Coord RawEvents) (id p : Coord) (t j : ℕ) (e x : RawEvent)
    → IsValid (events_of m p)
    → holds (events_of (remove m id t e).0 p) j x
      ≡ (if id == p && t == j && e == x then false else holds (events_of m p) j x)
holds-remove m id p t j e x v = elim (Bool-cases (id == p)) [
  | inl h ↦
      ap (λ l. holds l j x) (plot-remove m id p t e)
      ∙ rw h (holds-remove_event (events_of m p) t j e x v.sorted)
  | inr h ↦ ap (λ l. holds l j x) (plot-remove m id p t e) ∙ rw h refl
]

holds-add :
    (m : HashMap Coord RawEvents) (id p : Coord) (t j : ℕ) (e x : RawEvent)
    → holds (events_of (add m id t e) p) j x
      ≡ (holds (events_of m p) j x || (id == p && t == j && e == x))
holds-add m id p t j e x = elim (Bool-cases (id == p)) [
  | inl h ↦
      ap (λ l. holds l j x) (plot-add m id p t e) ∙ rw h (holds-add_event (events_of m p) t j e x)
  | inr h ↦ ap (λ l. holds l j x) (plot-add m id p t e) ∙ rw h (ground arith)
]

-- The difference that the rest of a call of `add_event` or `remove_event` sees.
module _ (d : DbDiff) (id p : Coord) (t : ℕ) (e : RawEvent) (base : RawEvents) where
  add_event-IsValidAt : IsValidAt d p base → IsValidAt (Overlay.add_event d id t e) p base
  unfolding Overlay.add_event
  add_event-IsValidAt v = elim (Bool-cases (relevant_plot d id)) [
    | inr h ↦ rw h v
    | inl h ↦ elim (Bool-cases (remove d.del_events id t e).1) [
      | inl g ↦ rw h (
          rw g (record {
            base_valid = v.base_valid;
            del_valid = remove-IsValid d.del_events id p t e v.del_valid;
            new_valid = v.new_valid;
          }))
      | inr g ↦ rw h (
          rw g (record {
            base_valid = v.base_valid;
            del_valid = remove-IsValid d.del_events id p t e v.del_valid;
            new_valid = add-IsValid d.new_events id p t e v.new_valid;
          }))
    ]
  ]

  remove_event-IsValidAt : IsValidAt d p base → IsValidAt (Overlay.remove_event d id t e) p base
  unfolding Overlay.remove_event
  remove_event-IsValidAt v = elim (Bool-cases (relevant_plot d id)) [
    | inr h ↦ rw h v
    | inl h ↦ elim (Bool-cases (remove d.new_events id t e).1) [
      | inl g ↦ rw h (
          rw g (record {
            base_valid = v.base_valid;
            new_valid = remove-IsValid d.new_events id p t e v.new_valid;
            del_valid = v.del_valid;
          }))
      | inr g ↦ rw h (
          rw g (record {
            base_valid = v.base_valid;
            new_valid = remove-IsValid d.new_events id p t e v.new_valid;
            del_valid = add-IsValid d.del_events id p t e v.del_valid;
          }))
    ]
  ]

  -- Of a plot inside the bounds, with a difference that fits to the database: after `_add_event`
  -- a state has exactly the events that it had and the one added, and after `_remove_event`
  -- exactly those that it had but the one removed, in the plot concerned, at the ticks asked for.
  pub overlay-events :
      (from j : ℕ) (x : RawEvent)
      → FitsPlot d p base
      → relevant_plot d id ≡ true
      → leb from j ≡ true
      → (holds (overlay_events (Overlay.add_event d id t e) p from base) j x
          ≡ (holds (overlay_events d p from base) j x || (id == p && t == j && e == x)))
        × (holds (overlay_events (Overlay.remove_event d id t e) p from base) j x ≡ (
            if id == p && t == j && e == x
            then false
            else holds (overlay_events d p from base) j x))
  unfolding Overlay.add_event Overlay.remove_event
  overlay-events from j x f h g = (
    ground (
      arith,
      holds-overlay_events d p from j x base f.valid,
      holds-overlay_events (Overlay.add_event d id t e) p from j x base
          (add_event-IsValidAt f.valid),
      holds-remove d.del_events id p t j e x f.valid.del_valid,
      holds-add d.new_events id p t j e x,
      flag-remove d.del_events id t e,
      f.removed j x,
      coord_eq.beq_iff id p,
      list_beq_iff e x,
    ),
    ground (
      arith,
      holds-overlay_events d p from j x base f.valid,
      holds-overlay_events (Overlay.remove_event d id t e) p from j x base
          (remove_event-IsValidAt f.valid),
      holds-remove d.new_events id p t j e x f.valid.new_valid,
      holds-add d.del_events id p t j e x,
      flag-remove d.new_events id t e,
      f.added j x,
      coord_eq.beq_iff id p,
      list_beq_iff e x,
    ),
  )
