-- ===== src/Database/Plots/Laws.antt =====
-- What the methods on buckets do to the buckets of a plot.
use blockscape.Coord.{Coord}
use blockscape.Event.{RawEvents}
use blockscape.Database.Key.{network, plot, as_bin, bucket_size}
use blockscape.Database.Interface.{Externals, TicksFit}
use blockscape.Database.Store.{Database, ok, get_raw, put_raw, update}
use blockscape.Database.Plots.{all_in, get_plot_event_bucket, put_plot_event_bucket}
use blockscape.Base.{
  ℕ, ◌/◌, ◌^◌, ◌<◌, ◌≡◌, ◌⊎◌, inl, inr, refl, ◌∙◌, true, Option, none, some, ◌∷◌, Bin, nat_eq,
  list_eq, list_beq_iff, list_beq-append, ◌==◌, if◌then◌else◌, Option-cases, arith,
}

abbrev pub bucket : ℕ → ℕ
bucket tick = tick / bucket_size

module _ (ex : Externals) (p : Coord) where
  abbrev bucket_key : ℕ → Bin
  bucket_key tick = as_bin ex.key_bytes (network (plot p tick))

  abbrev read_bucket : Option Bin → Option (Option RawEvents)
  read_bucket none = some none
  read_bucket (some v) = elim (ex.events.deserialize v) [ none ↦ none | some l ↦ some (some l) ]

  -- The bucket that is stored for a tick, if one is; `none` where the bytes cannot be read.
  abbrev pub bucket_of : Database → ℕ → Option (Option RawEvents)
  bucket_of db tick = read_bucket (db.rows (bucket_key tick))

  -- The database after a bucket has been written.
  abbrev pub with_bucket : Database → ℕ → RawEvents → Database
  with_bucket db tick l = record db {
    rows = update db.rows (bucket_key tick) (some (ex.events.serialize l));
  }

  pub get-eq :
      (db : Database) (t : ℕ) (o : Option RawEvents)
      → bucket_of db t ≡ some o
      → get_plot_event_bucket ex p t db ≡ (ok o, db)
  unfolding get_plot_event_bucket get_raw
  get-eq db t o h = ground (arith, Option-cases (db.rows (bucket_key t)))

  pub put-eq :
      (db : Database) (t : ℕ) (l : RawEvents)
      → all_in (bucket t) l ≡ true
      → put_plot_event_bucket ex p t l db ≡ (ok tt, with_bucket db t l)
  unfolding put_plot_event_bucket put_raw
  put-eq db t l h = rw h refl

  bucket_key_beq :
      (s t : ℕ) → s < 2 ^ 64 → t < 2 ^ 64 → (bucket_key s == bucket_key t) ≡ (bucket s == bucket t)
  bucket_key_beq s t hs ht =
      list_beq-append (b'n' ∷ b'P' ∷ b'L' ∷ b'T' ∷ ex.key_bytes.of_coord p) _ _
      ∙ ground (
        arith,
        list_beq_iff (ex.key_bytes.of_u64 (bucket s)) (ex.key_bytes.of_u64 (bucket t)),
        ex.of_u64_inj (bucket s) (bucket t) (omega arith) (omega arith),
      )

  pub bucket_of-with_bucket :
      (db : Database) (s t : ℕ) (l : RawEvents)
      → s < 2 ^ 64
      → t < 2 ^ 64
      → TicksFit l
      → bucket_of (with_bucket db s l) t
        ≡ (if bucket s == bucket t then some (some l) else bucket_of db t)
  bucket_of-with_bucket db s t l hs ht fit =
      ground (arith, bucket_key_beq s t hs ht, ex.events.deserialize-serialize l fit)

  pub cases :
      (o : Option (Option RawEvents))
      → (o ≡ none) ⊎ ((o ≡ some none) ⊎ ((l : RawEvents) × (o ≡ some (some l))))
  cases none = inl refl
  cases (some none) = inr (inl refl)
  cases (some (some l)) = inr (inr (l, refl))

  pub same_bucket :
      (db : Database) (s t : ℕ) → bucket s ≡ bucket t → bucket_of db s ≡ bucket_of db t
  same_bucket db s t h = rw h refl
