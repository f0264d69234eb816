-- ===== src/Overlay/Compile.antt =====
-- The batch that makes the database like a state (core/src/record_keeper/db_state.rs):
-- `DBState::compile`, and a batch applied to the rows, entry by entry.
use blockscape.Coord.{Coord, coord_eq}
use blockscape.BTreeMap
use blockscape.HashMap
use blockscape.HashMap.{HashMap}
use blockscape.Event.{RawEvents, add_events, remove_events}
use blockscape.Database.Key.{Key, as_bin, network, plot, bucket_size}
use blockscape.Database.Interface.{Externals}
use blockscape.Database.Store.{Result, ok, err, panic, update}
use blockscape.Database.Plots.{get_plot_event_bucket}
use blockscape.Overlay.State.{DbState, or_default}
use blockscape.Base.{
  ℕ, zero, suc, ◌+◌, ◌*◌, ◌/◌, Option, none, some, List, [], ◌∷◌, ◌++◌, Bin, ltb, nat_eq, list_eq,
  retain_ne, reverse, if◌then◌else◌,
}

pub data WriteOp : Type 0 where
  put : Bin → Bin → WriteOp
  delete : Bin → WriteOp

abbrev pub WriteBatch : Type 0
WriteBatch = List WriteOp

-- `apply` of a batch on the rows: a later operation prevails.
unfoldable pub apply : WriteBatch → (Bin → Option Bin) → Bin → Option Bin
apply [] rows = rows
apply (put k v ∷ wb) rows = apply wb (update rows k (some v))
apply (delete k ∷ wb) rows = apply wb (update rows k none)

-- The keys of a map of events.
abbrev pub plots_of : HashMap Coord RawEvents → List Coord
plots_of [] = []
plots_of (e ∷ m) = e.0 ∷ plots_of m

-- The plots of both maps, each once.
abbrev pub changed_plots : List Coord → List Coord
changed_plots [] = []
changed_plots (p ∷ ps) = p ∷ retain_ne p (changed_plots ps)

abbrev pub greatest_bucket : RawEvents → ℕ
greatest_bucket [] = 0
greatest_bucket (e ∷ m) =
    let rest = greatest_bucket m in let b = e.0 / bucket_size in if ltb rest b then b else rest

-- `BTreeSet`, as a map to the unit, in ascending order.
abbrev pub tick_buckets : RawEvents → BTreeMap.BTreeMap (Unit {0}) → BTreeMap.BTreeMap (Unit {0})
tick_buckets [] set = set
tick_buckets (e ∷ m) set = tick_buckets m (BTreeMap.insert (e.0 / bucket_size) tt set)

-- The events at the ticks of a range, added and removed.
abbrev pub add_range : RawEvents → RawEvents → RawEvents
add_range events [] = events
add_range events (e ∷ m) = add_range (add_events events e.0 e.1) m

abbrev pub remove_range : RawEvents → RawEvents → RawEvents
remove_range events [] = events
remove_range events (e ∷ m) = remove_range (remove_events events e.0 e.1) m

abbrev range : ℕ → ℕ → RawEvents → RawEvents
range from to m = BTreeMap.before to (BTreeMap.split_off from m)

abbrev pub and_then : {A B : Type 0} → Result A → (A → Result B) → Result B
and_then (ok a) f = f a
and_then (err e) f = err e
and_then panic f = panic

module _ (ex : Externals) where
  abbrev pub put_bucket : Coord → ℕ → RawEvents → WriteOp
  put_bucket id tick events =
      put (as_bin ex.key_bytes (network (plot id tick))) (ex.events.serialize events)

  -- The simple puts and the simple deletions.
  abbrev pub compile_puts : HashMap Key Bin → WriteBatch
  compile_puts [] = []
  compile_puts (e ∷ m) = put (as_bin ex.key_bytes e.0) e.1 ∷ compile_puts m

  abbrev pub compile_deletes : HashMap Key (Unit {0}) → WriteBatch
  compile_deletes [] = []
  compile_deletes (e ∷ m) = delete (as_bin ex.key_bytes e.0) ∷ compile_deletes m

module _ (ex : Externals) (s : DbState) where
  -- `self.db._get_plot_event_bucket(plot_id, tick)?`
  unfoldable pub bucket : Coord → ℕ → Result (Option RawEvents)
  unfolding get_plot_event_bucket
  bucket id tick = (get_plot_event_bucket ex id tick s.db).0

  -- The loop that initializes buckets from the bucket `n` on, down to one that is there: the
  -- operations, and the bucket at which it ends.
  unfoldable pub init_buckets : Coord → ℕ → Result (WriteBatch × ℕ)
  unfolding bucket
  init_buckets id zero =
      and_then (bucket id 0)
        λ found. elim found [ some _ ↦ ok ([], 0) | none ↦ ok (put_bucket ex id 0 [] ∷ [], 0) ]
  init_buckets id (suc n) =
      let rest = init_buckets id n in
      and_then (bucket id (suc n * bucket_size)) λ found. elim found [
        | some _ ↦ ok ([], suc n)
        | none ↦ and_then rest λ r. ok (put_bucket ex id (suc n * bucket_size) [] ∷ r.0, r.1)
      ]

  -- One bucket: what the database has there, the new events, and without the removed ones.
  unfoldable pub compile_bucket : Coord → ℕ → RawEvents → RawEvents → ℕ → Result WriteOp
  unfolding bucket
  compile_bucket id empty_after new_events del_events tb =
      let base = if ltb empty_after tb then ok none else bucket id (tb * bucket_size) in
      and_then base λ events. ok (
        put_bucket ex id (tb * bucket_size) (
          remove_range
            (add_range (or_default events)
              (range (tb * bucket_size) (tb * bucket_size + bucket_size) new_events))
            (range (tb * bucket_size) (tb * bucket_size + bucket_size) del_events)))

  unfoldable pub compile_buckets :
      Coord → ℕ → RawEvents → RawEvents → BTreeMap.BTreeMap (Unit {0}) → Result WriteBatch
  unfolding compile_bucket
  compile_buckets id empty_after new_events del_events [] = ok []
  compile_buckets id empty_after new_events del_events (tb ∷ tbs) =
      and_then (compile_bucket id empty_after new_events del_events tb.0) λ op.
        and_then (compile_buckets id empty_after new_events del_events tbs) λ ops. ok (op ∷ ops)

  -- The round of the plot: its buckets, from the last to the first.
  unfoldable pub compile_plot : Coord → Result WriteBatch
  unfolding init_buckets compile_buckets
  compile_plot id =
      let new_events = or_default (HashMap.get id s.diff.new_events) in
      let del_events = or_default (HashMap.get id s.diff.del_events) in
      and_then (init_buckets id (greatest_bucket new_events)) λ r.
        and_then
          (compile_buckets id r.1 new_events del_events
            (reverse (tick_buckets del_events (tick_buckets new_events []))))
          λ ops. ok (r.0 ++ ops)

  unfoldable pub compile_plots : List Coord → Result WriteBatch
  unfolding compile_plot
  compile_plots [] = ok []
  compile_plots (p ∷ ps) =
      and_then (compile_plot p) λ ops. and_then (compile_plots ps) λ more. ok (ops ++ more)

  unfoldable pub compile : Result WriteBatch
  unfolding compile_plots
  compile =
      and_then
        (compile_plots (changed_plots (plots_of s.diff.new_events ++ plots_of s.diff.del_events)))
        λ ops. ok (compile_puts ex s.diff.new_values ++ compile_deletes ex s.diff.del_values ++ ops)
