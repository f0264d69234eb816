-- ===== src/Database/Plots/Bucket.antt =====
-- What a bucket of events stores, and that adding an event keeps it.
use blockscape.BTreeMap
use blockscape.Event.{RawEvent, RawEvents, add_event}
use blockscape.Database.Key.{bucket_size}
use blockscape.Database.Interface.{TicksFit}
use blockscape.Database.Plots.{all_in}
use blockscape.Base.{
  ℕ, ◌/◌, ◌^◌, ◌<◌, ◌≡◌, ◌⊎◌, inl, inr, refl, sym, true, List, [], ◌∷◌, ◌++◌, nat_eq, list_eq,
  contains, Option-cases, Bool-cases, arith,
}
use blockscape.BTreeMap.{insert}
use blockscape.Database.Plots.Laws.{bucket}

all_in-insert :
    (b t : ℕ) (v : List RawEvent) (m : RawEvents)
    → (t / bucket_size) ≡ b
    → all_in b m ≡ true
    → all_in b (insert t v m) ≡ true
all_in-insert b t v [] h g = ground arith
all_in-insert b t v (e ∷ m) h g = ground (arith, all_in-insert b t v m h)

insert-TicksFit :
    (t : ℕ) (v : List RawEvent) (m : RawEvents) → t < 2 ^ 64 → TicksFit m → TicksFit (insert t v m)
insert-TicksFit t v [] h g = ground arith
insert-TicksFit t v (e ∷ m) h g = ground (arith, insert-TicksFit t v m h)

-- What a bucket stores: events of its own ticks, which fit.
pub record IsBucket (b : ℕ) (l : RawEvents) : Type 0 where
  pub own : all_in b l ≡ true
  pub fit : TicksFit l

pub move-IsBucket : {a b : ℕ} {l k : RawEvents} → a ≡ b → l ≡ k → IsBucket a l → IsBucket b k
move-IsBucket h g x = rw (sym h, sym g) x

add_event_form :
    (l : RawEvents) (t : ℕ) (e : RawEvent)
    → ((add_event l t e).0 ≡ l) ⊎ ((v : List RawEvent) × ((add_event l t e).0 ≡ insert t v l))
unfolding add_event
add_event_form l t e = elim (Option-cases (BTreeMap.get t l)) [
  | inl g ↦ inr (e ∷ [], ground arith)
  | inr (k, g) ↦ elim (Bool-cases (contains k e)) [
    | inl h ↦ inl (ground arith)
    | inr h ↦ inr (k ++ e ∷ [], ground arith)
  ]
]

pub add_event-IsBucket :
    (l : RawEvents) (t : ℕ) (e : RawEvent)
    → t < 2 ^ 64
    → IsBucket (bucket t) l
    → IsBucket (bucket t) (add_event l t e).0
add_event-IsBucket l t e h b = elim (add_event_form l t e) [
  | inl g ↦ rw g b
  | inr (v, g) ↦ rw g (record {
    own = all_in-insert (bucket t) t v l refl b.own;
    fit = insert-TicksFit t v l h b.fit;
  })
]
