-- ===== src/Event/Laws.antt =====
-- What the functions on raw events do to the events of each tick, and the well-formedness that
-- they keep.
use mathlib.Core.List.{append-nil}
use blockscape.BTreeMap
use blockscape.BTreeMap.{
  BTreeMap, IsSorted, Ascends, get-insert, get-remove, insert-Ascends, remove-Ascends,
  remove-insert, insert_back, get_below,
}
use blockscape.Event.{RawEvent, RawEvents, at, add_event, remove_event, put_back}
use blockscape.Base.{
  ℕ, ◌≤◌, ◌≡◌, refl, inl, inr, Bool, true, false, not, ◌&&◌, ◌||◌, some, List, [], ◌∷◌, ◌++◌, ltb,
  ◌==◌, nat_eq, list_eq, list_beq_iff, contains, retain_ne, length, contains-append,
  contains-retain_ne, retain_ne_absent, retain_ne-append, Option-cases, Bool-cases, if◌then◌else◌,
  arith, beq_refl, length-append,
}

-- Membership of an event at a tick.
abbrev pub holds : RawEvents → ℕ → RawEvent → Bool
holds events tick event = contains (at tick events) event

-- Adding an event makes it held at its tick, and changes no other membership.
pub holds-add_event :
    (m : RawEvents) (t j : ℕ) (e x : RawEvent)
    → holds (add_event m t e).0 j x ≡ (holds m j x || (t == j && e == x))
unfolding add_event
holds-add_event m t j e x = elim (Option-cases (BTreeMap.get t m)) [
  | inl h ↦ ground (arith, get-insert t j (e ∷ []) m)
  | inr (l, h) ↦
      ground (arith, get-insert t j (l ++ e ∷ []) m, contains-append l (e ∷ []) x, list_beq_iff e x)
]

at-put_back :
    (m : RawEvents) (t j : ℕ) (l : List RawEvent)
    → IsSorted m
    → at j (put_back m t l) ≡ (if t == j then l else at j m)
at-put_back m t j [] s = ground (arith, get-remove t j m 0 s)
at-put_back m t j (x ∷ l) s = ground (arith, get-insert t j (x ∷ l) m)

-- Removing an event takes it from its tick, and changes no other membership.
pub holds-remove_event :
    (m : RawEvents) (t j : ℕ) (e x : RawEvent)
    → IsSorted m
    → holds (remove_event m t e).0 j x ≡ (if t == j && e == x then false else holds m j x)
unfolding remove_event
holds-remove_event m t j e x s = elim (Option-cases (BTreeMap.get t m)) [
  | inl h ↦ ground (arith, list_beq_iff e x)
  | inr (l, h) ↦ ground (
    arith,
    get-insert t j (retain_ne e l) m,
    get-remove t j m 0 s,
    at-put_back m t j (retain_ne e l) s,
    contains-retain_ne e x l,
    list_beq_iff e x,
  )
]

length-retain_ne : (a : RawEvent) (xs : List RawEvent) → length (retain_ne a xs) ≤ length xs
length-retain_ne a [] = omega arith
length-retain_ne a (x ∷ xs) = ground (arith, length-retain_ne a xs)

retain_ne-shorter :
    (a : RawEvent) (xs : List RawEvent) → ltb (length (retain_ne a xs)) (length xs) ≡ contains xs a
retain_ne-shorter a [] = refl
retain_ne-shorter a (x ∷ xs) = ground (arith, retain_ne-shorter a xs, length-retain_ne a xs)

-- The flag of an addition says that the event was new, that of a removal that it was there.
pub event_flags :
    (m : RawEvents) (t : ℕ) (e : RawEvent)
    → ((add_event m t e).1 ≡ not (holds m t e)) × ((remove_event m t e).1 ≡ holds m t e)
unfolding add_event remove_event
event_flags m t e = elim (Option-cases (BTreeMap.get t m)) [
  | inl h ↦ (ground arith, ground arith)
  | inr (l, h) ↦ (ground arith, ground (arith, retain_ne-shorter e l))
]

-- No event stands twice in a list.
abbrev pub distinct : List RawEvent → Bool
distinct [] = true
distinct (e ∷ l) = not (contains l e) && distinct l

-- A list that a map may hold: not empty, and no event twice.
abbrev pub is_tidy_list : List RawEvent → Bool
is_tidy_list [] = false
is_tidy_list (e ∷ l) = distinct (e ∷ l)

abbrev pub is_tidy : RawEvents → Bool
is_tidy [] = true
is_tidy ((t, l) ∷ m) = is_tidy_list l && is_tidy m

-- The ticks ascend, every tick that has an entry has an event, and none twice.
pub record IsValid (m : RawEvents) : Type 0 where
  pub sorted : IsSorted m
  pub tidy : is_tidy m ≡ true

is_tidy-get :
    (t : ℕ) (m : RawEvents) (l : List RawEvent)
    → is_tidy m ≡ true
    → BTreeMap.get t m ≡ some l
    → is_tidy_list l ≡ true
is_tidy-get t [] l d h = absurd (cc)
is_tidy-get t ((j, w) ∷ m) l d h = ground (arith, is_tidy-get t m l)

is_tidy-insert :
    (t : ℕ) (l : List RawEvent) (m : RawEvents)
    → is_tidy_list l ≡ true
    → is_tidy m ≡ true
    → is_tidy (BTreeMap.insert t l m) ≡ true
is_tidy-insert t l [] h d = ground arith
is_tidy-insert t l ((j, w) ∷ m) h d = ground (arith, is_tidy-insert t l m)

is_tidy-remove : (t : ℕ) (m : RawEvents) → is_tidy m ≡ true → is_tidy (BTreeMap.remove t m) ≡ true
is_tidy-remove t [] d = refl
is_tidy-remove t ((j, w) ∷ m) d = ground (arith, is_tidy-remove t m)

distinct-append :
    (l : List RawEvent) (e : RawEvent)
    → distinct l ≡ true
    → contains l e ≡ false
    → distinct (l ++ e ∷ []) ≡ true
distinct-append [] e d h = refl
distinct-append (x ∷ l) e d h =
    ground
      (arith, distinct-append l e, contains-append l (e ∷ []) x, list_beq_iff e x, list_beq_iff x e)

is_tidy_list-append :
    (l : List RawEvent) (e : RawEvent)
    → is_tidy_list l ≡ true
    → contains l e ≡ false
    → is_tidy_list (l ++ e ∷ []) ≡ true
is_tidy_list-append [] e d h = cc
is_tidy_list-append (x ∷ l) e d h = distinct-append (x ∷ l) e d h

distinct-retain_ne :
    (e : RawEvent) (l : List RawEvent) → distinct l ≡ true → distinct (retain_ne e l) ≡ true
distinct-retain_ne e [] d = refl
distinct-retain_ne e (x ∷ l) d = ground (arith, distinct-retain_ne e l, contains-retain_ne e x l)

put_back-IsValid :
    (m : RawEvents) (t : ℕ) (l : List RawEvent)
    → distinct l ≡ true
    → IsValid m
    → IsValid (put_back m t l)
put_back-IsValid m t [] d v = record {
  sorted = remove-Ascends t m 0 v.sorted;
  tidy = is_tidy-remove t m v.tidy;
}
put_back-IsValid m t (x ∷ l) d v = record {
  sorted = insert-Ascends t (x ∷ l) m 0 (omega arith) v.sorted;
  tidy = is_tidy-insert t (x ∷ l) m d v.tidy;
}

is_tidy_list→distinct : (l : List RawEvent) → is_tidy_list l ≡ true → distinct l ≡ true
is_tidy_list→distinct [] h = refl
is_tidy_list→distinct (x ∷ l) h = h

-- An addition keeps the map well formed, and so does a removal.
pub event-IsValid :
    (m : RawEvents) (t : ℕ) (e : RawEvent)
    → IsValid m
    → IsValid (add_event m t e).0 × IsValid (remove_event m t e).0
unfolding add_event remove_event
event-IsValid m t e v = elim (Option-cases (BTreeMap.get t m)) [
  | inl h ↦
      rw (h, add_event, remove_event)
        (
          record {
            sorted = insert-Ascends t (e ∷ []) m 0 (omega arith) v.sorted;
            tidy = is_tidy-insert t (e ∷ []) m refl v.tidy;
          },
          v,
        )
  | inr (l, h) ↦
      let ok = is_tidy-get t m l v.tidy h in
      rw (h, add_event, remove_event)
        (
          elim (Bool-cases (contains l e)) [
            | inl old ↦ rw old v
            | inr new ↦ rw new (record {
              sorted = insert-Ascends t (l ++ e ∷ []) m 0 (omega arith) v.sorted;
              tidy = is_tidy-insert t (l ++ e ∷ []) m (is_tidy_list-append l e ok new) v.tidy;
            })
          ],
          put_back-IsValid m t _ (distinct-retain_ne e l (is_tidy_list→distinct l ok)) v,
        )
]

put_back-insert :
    (m : RawEvents) (t : ℕ) (l : List RawEvent) (w : List RawEvent)
    → IsSorted m
    → BTreeMap.get t m ≡ some l
    → is_tidy_list l ≡ true
    → put_back (BTreeMap.insert t w m) t l ≡ m
put_back-insert m t [] w s h d = cc
put_back-insert m t (x ∷ l) w s h d = insert_back t w (x ∷ l) m 0 s h

-- Removing an event that was just added for the first time restores the map, whatever it held.
pub remove_event-add_event :
    (m : RawEvents) (t : ℕ) (e : RawEvent)
    → IsValid m
    → holds m t e ≡ false
    → remove_event (add_event m t e).0 t e ≡ (m, true)
unfolding add_event remove_event
remove_event-add_event m t e v h = elim (Option-cases (BTreeMap.get t m)) [
  | inl g ↦ ground (arith, get-insert t t (e ∷ []) m, remove-insert t (e ∷ []) m, beq_refl e)
  | inr (l, g) ↦ ground (
    arith,
    get-insert t t (l ++ e ∷ []) m,
    retain_ne-append e l (e ∷ []),
    retain_ne_absent e l,
    append-nil l,
    beq_refl e,
    length-append l (e ∷ []),
    put_back-insert m t l (l ++ e ∷ []) v.sorted,
    is_tidy-get t m l v.tidy,
  )
]
