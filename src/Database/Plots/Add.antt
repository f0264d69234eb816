-- ===== src/Database/Plots/Add.antt =====
-- Adding an event to a plot: the buckets stay well-formed, and the event is there afterwards.
use blockscape.Coord.{Coord}
use blockscape.Event.{RawEvent, RawEvents, add_event}
use blockscape.Database.Key.{bucket_size}
use blockscape.Database.Interface.{Externals}
use blockscape.Database.Store.{Database, ok, bind-ok}
use blockscape.Database.Plots.{
  get_plot_event_bucket, put_plot_event_bucket, init_event_buckets, add_plot_event,
}
use blockscape.Base.{
  ℕ, ◌-◌, ◌^◌, ◌<◌, ◌≡◌, ◌⊎◌, inl, inr, refl, ◌∙◌, Bool, false, ◌&&◌, ◌||◌, Option, none, some, [],
  ltb, nat_eq, list_eq, ◌==◌, if◌then◌else◌, Bool-cases, arith,
}
use blockscape.Event.Laws.{holds, holds-add_event}
use blockscape.Database.Plots.{add_to_bucket}
use blockscape.Database.Plots.Laws.{
  bucket, bucket_of, with_bucket, get-eq, put-eq, bucket_of-with_bucket, cases, same_bucket,
}
use blockscape.Database.Plots.Fill.{or_empty, IsClosed, init_down-IsFilled}
use blockscape.Database.Plots.Bucket.{move-IsBucket, add_event-IsBucket, IsBucket}

module _ (ex : Externals) (p : Coord) where
  -- The buckets of a plot as the methods keep them: they can be read, they have only events of
  -- their own ticks, and below one that is there none is absent.
  pub record IsWell (db : Database) : Type 0 where
    pub closed : (n : ℕ) → IsClosed ex p db n
    pub buckets :
        (t : ℕ)
        → t < 2 ^ 64
        → (l : RawEvents) → bucket_of ex p db t ≡ some (some l)
        → IsBucket (bucket t) l

  abbrev held : Option (Option RawEvents) → ℕ → RawEvent → Bool
  held (some (some l)) tick event = holds l tick event
  held _ tick event = false

  -- Whether the plot has the event at the tick.
  abbrev pub has_event : Database → ℕ → RawEvent → Bool
  has_event db tick event = held (bucket_of ex p db tick) tick event

  -- The buckets before the one of `tick` made present, as they are when its bucket is written.
  record IsPrepared (db db0 : Database) (tick : ℕ) : Type 0 where
    prepared :
        (s : ℕ)
        → s < 2 ^ 64
        → bucket_of ex p db0 s ≡ (
            if ltb (bucket s) (bucket tick)
            then or_empty ex p (bucket_of ex p db s)
            else bucket_of ex p db s)

  -- The list that the event is added to: the bucket, or none.
  abbrev IsOld : Database → ℕ → RawEvents → Type 0
  IsOld db tick l =
      (bucket_of ex p db tick ≡ some (some l)) ⊎ ((bucket_of ex p db tick ≡ some none) × (l ≡ []))

  old-IsBucket :
      (db : Database) (tick : ℕ) (l : RawEvents)
      → tick < 2 ^ 64
      → IsWell db
      → IsOld db tick l
      → IsBucket (bucket tick) l
  old-IsBucket db tick l h w (inl g) = w.buckets tick h l g
  old-IsBucket db tick l h w (inr (g, e)) = rw e (record { own = refl; fit = tt })

  written_at :
      (db db0 : Database) (tick : ℕ) (event : RawEvent) (l : RawEvents)
      → tick < 2 ^ 64
      → IsWell db
      → IsOld db tick l
      → (s : ℕ) → s < 2 ^ 64
      → bucket_of ex p (with_bucket ex p db0 tick (add_event l tick event).0) s ≡ (
          if bucket tick == bucket s
          then some (some (add_event l tick event).0)
          else bucket_of ex p db0 s)
  written_at db db0 tick event l h w old s hs =
      bucket_of-with_bucket ex p db0 tick s (add_event l tick event).0 h hs
        ((add_event-IsBucket l tick event h (old-IsBucket db tick l h w old)).fit)

  written-has_event :
      (db db0 : Database) (tick : ℕ) (event : RawEvent) (l : RawEvents)
      → tick < 2 ^ 64
      → IsWell db
      → IsPrepared db db0 tick
      → IsOld db tick l
      → (s : ℕ) (x : RawEvent) → s < 2 ^ 64
      → has_event (with_bucket ex p db0 tick (add_event l tick event).0) s x
        ≡ (has_event db s x || (tick == s && event == x))
  written-has_event db db0 tick event l h w q old s x hs = ground (
    arith,
    written_at db db0 tick event l h w old s hs,
    holds-add_event l tick s event x,
    q.prepared s hs,
    same_bucket ex p db s tick,
    cases ex p (bucket_of ex p db s),
    old,
  )

  written_buckets :
      (db db0 : Database) (tick : ℕ) (event : RawEvent) (l : RawEvents)
      → tick < 2 ^ 64
      → IsWell db
      → IsPrepared db db0 tick
      → IsOld db tick l
      → (t : ℕ) → t < 2 ^ 64
      → (k : RawEvents)
      → bucket_of ex p (with_bucket ex p db0 tick (add_event l tick event).0) t ≡ some (some k)
      → IsBucket (bucket t) k
  written_buckets db db0 tick event l h w q old t ht k g =
      elim (Bool-cases (bucket tick == bucket t)) [
        | inl e ↦
            let same : (add_event l tick event).0 ≡ k =
              ground (arith, written_at db db0 tick event l h w old t ht) in
            let here : bucket tick ≡ bucket t = ground arith in
            move-IsBucket here same
              (add_event-IsBucket l tick event h (old-IsBucket db tick l h w old))
        | inr e ↦ elim (cases ex p (bucket_of ex p db t)) [
          | inl f ↦ absurd ((w.closed (bucket t)).readable t ht (omega arith) f)
          | inr (inl f) ↦
              let empty : k ≡ [] =
                ground (arith, written_at db db0 tick event l h w old t ht, q.prepared t ht) in
              rw empty (record { own = refl; fit = tt })
          | inr (inr (m, f)) ↦
              let kept : k ≡ m =
                ground (arith, written_at db db0 tick event l h w old t ht, q.prepared t ht) in
              rw kept (w.buckets t ht m f)
        ]
      ]

  written-IsWell :
      (db db0 : Database) (tick : ℕ) (event : RawEvent) (l : RawEvents)
      → tick < 2 ^ 64
      → IsWell db
      → IsPrepared db db0 tick
      → IsOld db tick l
      → IsWell (with_bucket ex p db0 tick (add_event l tick event).0)
  written-IsWell db db0 tick event l h w q old = record {
    closed = λ n. record {
      readable = λ t ht le. ground (
        arith,
        written_at db db0 tick event l h w old t ht,
        q.prepared t ht,
        (w.closed n).readable t ht le,
        cases ex p (bucket_of ex p db t),
      );
      closed = λ s t hs ht st le e. ground (
        arith,
        written_at db db0 tick event l h w old s hs,
        written_at db db0 tick event l h w old t ht,
        q.prepared s hs,
        q.prepared t ht,
        (w.closed n).closed s t hs ht st le,
        cases ex p (bucket_of ex p db s),
      );
    };
    buckets = written_buckets db db0 tick event l h w q old;
  }

  prepare :
      (db : Database) (tick : ℕ)
      → tick < 2 ^ 64
      → IsWell db
      → (db0 : Database) × (init_event_buckets ex p tick db ≡ (ok tt, db0)) × IsPrepared db db0 tick
  unfolding init_event_buckets
  prepare db tick h w = elim (Bool-cases (ltb tick bucket_size)) [
    | inl e ↦ (db, rw e refl, record { prepared = λ s hs. ground arith })
    | inr e ↦
        let (db0, r, f) =
          init_down-IsFilled ex p (bucket (tick - bucket_size)) db (tick - bucket_size)
            (omega arith) refl (w.closed (bucket (tick - bucket_size))) in
        (db0, rw e r, record { prepared = λ s hs. ground (arith, f.filled s hs) })
  ]

  unchanged :
      (db : Database) (tick : ℕ) (l : RawEvents)
      → tick < 2 ^ 64
      → IsWell db
      → bucket_of ex p db tick ≡ some (some l)
      → IsPrepared db db tick
  unchanged db tick l h w g = record {
    prepared = λ s hs.
        ground
          (arith, (w.closed (bucket tick)).closed s tick hs h, cases ex p (bucket_of ex p db s));
  }

  -- On well-formed buckets, adding an event at a tick of 64 bits to a plot succeeds, leaves
  -- well-formed buckets, and the plot then has this event at its tick and otherwise exactly the
  -- events that it had, at every tick of 64 bits; buckets made on the way hold no event.
  pub add_plot_event_lem :
      (db : Database) (tick : ℕ) (event : RawEvent)
      → tick < 2 ^ 64
      → IsWell db
      → (db' : Database) × (add_plot_event ex p tick event db ≡ (ok tt, db'))
        × IsWell db'
        × ((s : ℕ) (x : RawEvent)
            → s < 2 ^ 64
            → has_event db' s x ≡ (has_event db s x || (tick == s && event == x)))
  unfolding add_plot_event
  add_plot_event_lem db tick event h w = elim (cases ex p (bucket_of ex p db tick)) [
    | inl g ↦ absurd ((w.closed (bucket tick)).readable tick h (omega arith) g)
    | inr (inl g) ↦
        let (db0, r, q) = prepare db tick h w in
        let new = add_event-IsBucket [] tick event h (record { own = refl; fit = tt }) in
        (
          with_bucket ex p db0 tick (add_event [] tick event).0,
          bind-ok (get_plot_event_bucket ex p tick) (add_to_bucket ex p tick event) db db none
                (get-eq ex p db tick none g)
              ∙ bind-ok (init_event_buckets ex p tick)
                  (λ _. put_plot_event_bucket ex p tick (add_event [] tick event).0) db db0 tt r
              ∙ put-eq ex p db0 tick (add_event [] tick event).0 new.own,
          written-IsWell db db0 tick event [] h w q (inr (g, refl)),
          written-has_event db db0 tick event [] h w q (inr (g, refl)),
        )
    | inr (inr (l, g)) ↦
        let new = add_event-IsBucket l tick event h (w.buckets tick h l g) in
        let q = unchanged db tick l h w g in
        (
          with_bucket ex p db tick (add_event l tick event).0,
          bind-ok (get_plot_event_bucket ex p tick) (add_to_bucket ex p tick event) db db (some l)
                (get-eq ex p db tick (some l) g)
              ∙ put-eq ex p db tick (add_event l tick event).0 new.own,
          written-IsWell db db tick event l h w q (inl g),
          written-has_event db db tick event l h w q (inl g),
        )
  ]
