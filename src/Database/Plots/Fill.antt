-- ===== src/Database/Plots/Fill.antt =====
-- The loop that makes the buckets of a plot contiguous.
use blockscape.Coord.{Coord}
use blockscape.Event.{RawEvents}
use blockscape.Database.Key.{bucket_size}
use blockscape.Database.Interface.{Externals}
use blockscape.Database.Store.{Database, ok, pure, bind-ok}
use blockscape.Database.Plots.{get_plot_event_bucket, put_plot_event_bucket, init_down}
use blockscape.Base.{
  ℕ, zero, suc, ◌-◌, ◌^◌, ◌≤◌, ◌<◌, ◌≡◌, ◌≢◌, inl, inr, refl, ◌∙◌, Option, none, some, [], leb,
  nat_eq, list_eq, if◌then◌else◌, arith,
}
use blockscape.Database.Plots.{init_round}
use blockscape.Database.Plots.Laws.{
  bucket, bucket_of, with_bucket, get-eq, put-eq, bucket_of-with_bucket, cases, same_bucket,
}

module _ (ex : Externals) (p : Coord) where
  -- A bucket that is absent, made empty.
  abbrev pub or_empty : Option (Option RawEvents) → Option (Option RawEvents)
  or_empty (some none) = some (some [])
  or_empty o = o

  -- The buckets of a plot as the methods keep them: those of the ticks up to the bucket `n` can be
  -- read, and below one that is there none is absent.
  pub record IsClosed (db : Database) (n : ℕ) : Type 0 where
    pub readable : (t : ℕ) → t < 2 ^ 64 → bucket t ≤ n → bucket_of ex p db t ≢ none
    pub closed :
        (s t : ℕ)
        → s < 2 ^ 64
        → t < 2 ^ 64
        → bucket s ≤ bucket t
        → bucket t ≤ n
        → bucket_of ex p db s ≡ some none
        → bucket_of ex p db t ≡ some none

  -- What `_init_event_buckets` leaves: every bucket up to `n` is there, the absent ones empty.
  pub record IsFilled (db db' : Database) (n : ℕ) : Type 0 where
    pub filled :
        (s : ℕ)
        → s < 2 ^ 64
        → bucket_of ex p db' s
          ≡ (if leb (bucket s) n then or_empty (bucket_of ex p db s) else bucket_of ex p db s)

  with_empty-IsClosed :
      (db : Database) (n tick : ℕ)
      → tick < 2 ^ 64
      → bucket tick ≡ suc n
      → IsClosed db (suc n)
      → IsClosed (with_bucket ex p db tick []) n
  with_empty-IsClosed db n tick l b c = record {
    readable = λ t lt le.
        ground
          (arith, bucket_of-with_bucket ex p db tick t [] l lt tt, c.readable t lt (omega arith));
    closed = λ s t ls lt st le e. ground (
      arith,
      bucket_of-with_bucket ex p db tick s [] l ls tt,
      bucket_of-with_bucket ex p db tick t [] l lt tt,
      c.closed s t ls lt st (omega arith),
    );
  }

  stop_here :
      (db : Database) (n tick : ℕ) (events : RawEvents)
      → tick < 2 ^ 64
      → bucket tick ≡ n
      → IsClosed db n
      → bucket_of ex p db tick ≡ some (some events)
      → IsFilled db db n
  stop_here db n tick events l b c e = record {
    filled = λ s ls. elim (cases ex p (bucket_of ex p db s)) [
      | inl g ↦ ground (arith, c.readable s ls)
      | inr (inl g) ↦ ground (arith, c.closed s tick ls l)
      | inr (inr (k, g)) ↦ rw g (ground arith)
    ];
  }

  fill_here :
      (db db' : Database) (n tick : ℕ)
      → tick < 2 ^ 64
      → bucket tick ≡ suc n
      → bucket_of ex p db tick ≡ some none
      → IsClosed db (suc n)
      → IsFilled (with_bucket ex p db tick []) db' n
      → IsFilled db db' (suc n)
  fill_here db db' n tick l b e c f = record {
    filled = λ s ls.
        f.filled s ls
        ∙ ground (
          arith,
          bucket_of-with_bucket ex p db tick s [] l ls tt,
          same_bucket ex p db s tick,
          cases ex p (bucket_of ex p db s),
        );
  }

  fill_zero :
      (db : Database) (tick : ℕ)
      → tick < 2 ^ 64
      → bucket tick ≡ 0
      → bucket_of ex p db tick ≡ some none
      → IsFilled db (with_bucket ex p db tick []) 0
  fill_zero db tick l b g = record {
    filled = λ s ls.
        ground (arith, bucket_of-with_bucket ex p db tick s [] l ls tt, same_bucket ex p db s tick);
  }

  -- The loop that makes the buckets contiguous ends without an error, and leaves every bucket from
  -- its first tick down to 0 in place.
  pub init_down-IsFilled :
      (n : ℕ) (db : Database) (tick : ℕ)
      → tick < 2 ^ 64
      → bucket tick ≡ n
      → IsClosed db n
      → (db' : Database) × (init_down ex p n tick db ≡ (ok tt, db')) × IsFilled db db' n
  init_down-IsFilled zero db tick l b c = elim (cases ex p (bucket_of ex p db tick)) [
    | inl g ↦ absurd (c.readable tick l (omega arith) g)
    | inr (inl g) ↦ (
      with_bucket ex p db tick [],
      bind-ok (get_plot_event_bucket ex p tick) (init_round ex p tick (pure tt)) db db none
            (get-eq ex p db tick none g)
          ∙ bind-ok (put_plot_event_bucket ex p tick []) (λ _. pure tt) db _ tt
              (put-eq ex p db tick [] refl),
      fill_zero db tick l b g,
    )
    | inr (inr (k, g)) ↦ (
      db,
      bind-ok (get_plot_event_bucket ex p tick) (init_round ex p tick (pure tt)) db db (some k)
          (get-eq ex p db tick (some k) g),
      stop_here db 0 tick k l b c g,
    )
  ]
  init_down-IsFilled (suc n) db tick l b c = elim (cases ex p (bucket_of ex p db tick)) [
    | inl g ↦ absurd (c.readable tick l (omega arith) g)
    | inr (inl g) ↦
        let (db', e, f) =
          init_down-IsFilled n (with_bucket ex p db tick []) (tick - bucket_size) (omega arith)
            (omega arith) (with_empty-IsClosed db n tick l b c) in
        (
          db',
          bind-ok (get_plot_event_bucket ex p tick)
                (init_round ex p tick (init_down ex p n (tick - bucket_size))) db db none
                (get-eq ex p db tick none g)
              ∙ bind-ok (put_plot_event_bucket ex p tick [])
                  (λ _. init_down ex p n (tick - bucket_size)) db _ tt (put-eq ex p db tick [] refl)
              ∙ e,
          fill_here db db' n tick l b g c f,
        )
    | inr (inr (k, g)) ↦ (
      db,
      bind-ok (get_plot_event_bucket ex p tick)
          (init_round ex p tick (init_down ex p n (tick - bucket_size))) db db (some k)
          (get-eq ex p db tick (some k) g),
      stop_here db (suc n) tick k l b c g,
    )
  ]
