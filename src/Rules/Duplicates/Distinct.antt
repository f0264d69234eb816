-- ===== src/Rules/Duplicates/Distinct.antt =====
-- What a mutation has in which no duplicates are found.
use blockscape.Coord.{Coord}
use blockscape.Event.{RawEvents, RawEvent, at}
use blockscape.Mutation.{
  Change, admin, block_reward, plot_event, new_validator, slash, transfer, PlotEvent,
}
use blockscape.Rules.Ruling.{Ruling, ok, broken, failed, ◌>>=◌, unless, duplicate}
use blockscape.Rules.Duplicates.{
  Seen, seen_at, append_to, duplicated_within_net, fresh_in, add_validator, add_plot_event, see_all,
  is_valid,
}
use blockscape.Base.{
  ℕ, ◌≡◌, refl, sym, Bool, false, not, ◌||◌, List, [], ◌∷◌, Bin, contains, nat_eq, list_eq,
  Bool-cases, inl, inr, arith,
}

bind_ok :
    {A B : Type 0} (m : Ruling A) (f : A → Ruling B) (b : B)
    → (m >>= f) ≡ ok b
    → (a : A) × (m ≡ ok a) × (f a ≡ ok b)
bind_ok (ok a) f b h = (a, refl, h)
bind_ok (broken e) f b h = absurd (cc)
bind_ok failed f b h = absurd (cc)

module _ (is_known : ℕ → Bool) (plot_events : Coord → ℕ → Ruling RawEvents)
    (hash_pub_key : Bin → ℕ) where
  -- The network state has the event at none of the plots.
  abbrev pub NotStored : List Coord → ℕ → RawEvent → Type 0
  NotStored [] tick event = Unit {0}
  NotStored (id ∷ ids) tick event =
      ((m : RawEvents) × (plot_events id tick ≡ ok m) × (contains (at tick m) event ≡ false))
      × NotStored ids tick event

  -- New validators are neither known nor among those before, and plot events are not stored.
  abbrev pub AllNew : List ℕ → List (Change × ℕ) → Type 0
  AllNew seen [] = Unit {0}
  AllNew seen ((new_validator pub_key, user) ∷ mutation) =
      (is_known (hash_pub_key pub_key) ≡ false)
      × (contains seen (hash_pub_key pub_key) ≡ false)
      × AllNew (hash_pub_key pub_key ∷ seen) mutation
  AllNew seen ((plot_event e, user) ∷ mutation) =
      NotStored (e.from ∷ e.to) e.tick e.event × AllNew seen mutation
  AllNew seen ((admin k v, user) ∷ mutation) = AllNew seen mutation
  AllNew seen ((block_reward i p, user) ∷ mutation) = AllNew seen mutation
  AllNew seen ((slash f a s, user) ∷ mutation) = AllNew seen mutation
  AllNew seen ((transfer f t, user) ∷ mutation) = AllNew seen mutation

  fresh_in-NotStored :
      (ids : List Coord) (tick : ℕ) (event : RawEvent)
      → fresh_in is_known plot_events hash_pub_key ids tick event ≡ ok tt
      → NotStored ids tick event
  unfolding duplicated_within_net
  fresh_in-NotStored [] tick event h = tt
  fresh_in-NotStored (id ∷ ids) tick event h =
      let (found, g, h1) =
        bind_ok (duplicated_within_net is_known plot_events hash_pub_key id tick event)
          (λ found. unless (not found) duplicate >>= λ _.
            fresh_in is_known plot_events hash_pub_key ids tick event)
          tt h in
      let (u, k, h2) =
        bind_ok (unless (not found) duplicate)
          (λ _. fresh_in is_known plot_events hash_pub_key ids tick event) tt h1 in
      let (m, p, q) =
        bind_ok (plot_events id tick) (λ events. ok (contains (at tick events) event)) found g in
      ((m, p, ground (arith, q, k)), fresh_in-NotStored ids tick event h2)

  -- An event that is accepted is stored nowhere, and the validators stay.
  add_plot_event-NotStored :
      (e : PlotEvent) (s next : Seen)
      → add_plot_event is_known plot_events hash_pub_key e s ≡ ok next
      → NotStored (e.from ∷ e.to) e.tick e.event × (next.validators ≡ s.validators)
  add_plot_event-NotStored e s next h =
      elim (Bool-cases (seen_at s.events (e.from ∷ e.to) e.tick e.event)) [
        | inl d ↦ absurd (ground (arith, d, h))
        | inr d ↦
            let (u, k, r) =
              bind_ok (fresh_in is_known plot_events hash_pub_key (e.from ∷ e.to) e.tick e.event)
                (λ _. ok (record s { events = append_to s.events (e.from ∷ e.to) e.tick e.event }))
                next (ground (arith, d, h)) in
            (fresh_in-NotStored (e.from ∷ e.to) e.tick e.event k, ground (arith, r))
      ]

  see_all-AllNew :
      (mutation : List (Change × ℕ)) (s t : Seen)
      → see_all is_known plot_events hash_pub_key mutation s ≡ ok t
      → AllNew s.validators mutation
  unfolding see_all
  see_all-AllNew [] s t h = tt
  see_all-AllNew ((new_validator pub_key, user) ∷ mutation) s t h =
      let (next, g, h1) =
        bind_ok (add_validator is_known plot_events hash_pub_key (hash_pub_key pub_key) s)
          (see_all is_known plot_events hash_pub_key mutation) t h in
      elim (Bool-cases
        (contains s.validators (hash_pub_key pub_key) || is_known (hash_pub_key pub_key))) [
          | inl d ↦ absurd (ground (arith, d, g))
          | inr d ↦
              let same : next.validators ≡ hash_pub_key pub_key ∷ s.validators =
                ground (arith, d, g) in
              (
                ground (arith, d),
                ground (arith, d),
                rw (sym same) (see_all-AllNew mutation next t h1),
              )
        ]
  see_all-AllNew ((plot_event e, user) ∷ mutation) s t h =
      let (next, g, h1) =
        bind_ok (add_plot_event is_known plot_events hash_pub_key e s)
          (see_all is_known plot_events hash_pub_key mutation) t h in
      let r = add_plot_event-NotStored e s next g in
      (r.0, rw (sym r.1) (see_all-AllNew mutation next t h1))
  see_all-AllNew ((admin k v, user) ∷ mutation) s t h = see_all-AllNew mutation s t h
  see_all-AllNew ((block_reward i p, user) ∷ mutation) s t h = see_all-AllNew mutation s t h
  see_all-AllNew ((slash f a c, user) ∷ mutation) s t h = see_all-AllNew mutation s t h
  see_all-AllNew ((transfer f to, user) ∷ mutation) s t h = see_all-AllNew mutation s t h

  -- If no duplicates are found in a mutation, every new validator in it is unknown to the network
  -- state and different from those before it, and the network state has no plot event of it, at its
  -- tick, at any of its plots.
  pub is_valid-AllNew :
      (mutation : List (Change × ℕ))
      → is_valid is_known plot_events hash_pub_key mutation ≡ ok tt
      → AllNew [] mutation
  unfolding is_valid
  is_valid-AllNew mutation h =
      let (t, g, u) =
        bind_ok
          (see_all is_known plot_events hash_pub_key mutation
            (record { validators = []; events = [] }))
          (λ _. ok tt) tt h in
      see_all-AllNew mutation (record { validators = []; events = [] }) t g
