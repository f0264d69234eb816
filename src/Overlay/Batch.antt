-- ===== src/Overlay/Batch.antt =====
-- The batch of a state, applied: the database then has what the state reads.
use blockscape.Coord.{Coord, coord_eq}
use blockscape.BTreeMap
use blockscape.HashMap
use blockscape.HashMap.{HashMap, IsUnique}
use blockscape.Event.{RawEvents}
use blockscape.Database.Key.{Key, as_bin, network, plot, bucket_size}
use blockscape.Database.Key.Same.{key_eq}
use blockscape.Database.Store.{Result, ok, update, get_raw}
use blockscape.Database.Chain.{ChainExternals}
use blockscape.Overlay
use blockscape.Overlay.State
use blockscape.Overlay.State.{DbState, is_plot, or_default}
use blockscape.Overlay.Values.{IsDisjoint}
use blockscape.Overlay.Compile.{
  WriteBatch, WriteOp, put, delete, apply, and_then, bucket, put_bucket, init_buckets,
  compile_bucket, compile_buckets, compile_plot, compile_plots, compile_puts, compile_deletes,
  compile, tick_buckets, plots_of, changed_plots, greatest_bucket,
}
use blockscape.Base.{
  ℕ, zero, suc, ◌*◌, ◌≡◌, ◌≢◌, refl, ap, ◌∙◌, ◌⊎◌, Bool, true, false, not, ◌&&◌, Option, none, some,
  List, [], ◌∷◌, ◌++◌, Bin, nat_eq, list_eq, ◌==◌, list_beq_iff, if◌then◌else◌, arith, Bool-cases,
  Option-cases, inl, inr, ltb, reverse,
}

abbrev key_of : WriteOp → Bin
key_of (put k v) = k
key_of (delete k) = k

-- No operation is at the key.
abbrev avoids : Bin → WriteBatch → Bool
avoids b [] = true
avoids b (op ∷ wb) = not (key_of op == b) && avoids b wb

avoids-append :
    (b : Bin) (wb more : WriteBatch)
    → avoids b wb ≡ true
    → avoids b more ≡ true
    → avoids b (wb ++ more) ≡ true
avoids-append b [] more h g = g
avoids-append b (op ∷ wb) more h g = ground (arith, avoids-append b wb more)

apply-append :
    (wb more : WriteBatch) (rows : Bin → Option Bin)
    → apply (wb ++ more) rows ≡ apply more (apply wb rows)
unfolding apply
apply-append [] more rows = refl
apply-append (put k v ∷ wb) more rows = apply-append wb more (update rows k (some v))
apply-append (delete k ∷ wb) more rows = apply-append wb more (update rows k none)

apply-avoids :
    (b : Bin) (wb : WriteBatch) (rows : Bin → Option Bin)
    → avoids b wb ≡ true
    → apply wb rows b ≡ rows b
unfolding apply
apply-avoids b [] rows h = refl
apply-avoids b (put k v ∷ wb) rows h = ground (arith, apply-avoids b wb (update rows k (some v)))
apply-avoids b (delete k ∷ wb) rows h = ground (arith, apply-avoids b wb (update rows k none))

abbrev or_row : Option Bin → Option Bin → Option Bin
or_row (some v) row = some v
or_row none row = row

module _ (ex : ChainExternals) (key : Key) where
  abbrev place : Bin
  place = as_bin ex.base.key_bytes key

  -- No other key of the map has the bytes of the key.
  abbrev pub IsApart : {V : Type 0} → HashMap Key V → Type 0
  IsApart m =
      (j : Key) → HashMap.contains_key j m ≡ true → as_bin ex.base.key_bytes j ≡ place → j ≡ key

  same_place :
      (j : Key)
      → (as_bin ex.base.key_bytes j ≡ place → j ≡ key)
      → (as_bin ex.base.key_bytes j == place) ≡ (j == key)
  same_place j only = ground (
    arith,
    only,
    ap (as_bin ex.base.key_bytes) {x = j} {y = key},
    key_eq.beq_iff j key,
    list_beq_iff (as_bin ex.base.key_bytes j) place,
  )

  head-apart :
      {V : Type 0} (j : Key) (v : V) (m : HashMap Key V)
      → IsApart ((j, v) ∷ m)
      → as_bin ex.base.key_bytes j ≡ place
      → j ≡ key
  head-apart j v m o = o j (ground (arith, key_eq.beq_iff j j))

  tail-IsApart :
      {V : Type 0} (j : Key) (v : V) (m : HashMap Key V) → IsApart ((j, v) ∷ m) → IsApart m
  tail-IsApart j v m o k h = o k (ground (arith, h, key_eq.beq_iff k j))

  apply-puts :
      (m : HashMap Key Bin) (rows : Bin → Option Bin)
      → IsApart m
      → IsUnique m
      → apply (compile_puts ex.base m) rows place ≡ or_row (HashMap.get key m) (rows place)
  unfolding apply
  apply-puts [] rows o u = refl
  apply-puts (e ∷ m) rows o u = ground (
    arith,
    apply-puts m (update rows (as_bin ex.base.key_bytes e.0) (some e.1)) (tail-IsApart e.0 e.1 m o)
        u.1,
    same_place e.0 (head-apart e.0 e.1 m o),
    key_eq.beq_iff e.0 key,
    key_eq.beq_iff key e.0,
    u.0,
  )

  apply-deletes :
      (m : HashMap Key (Unit {0})) (rows : Bin → Option Bin)
      → IsApart m
      → apply (compile_deletes ex.base m) rows place
        ≡ (if HashMap.contains_key key m then none else rows place)
  unfolding apply
  apply-deletes [] rows o = refl
  apply-deletes (e ∷ m) rows o = ground (
    arith,
    apply-deletes m (update rows (as_bin ex.base.key_bytes e.0) none) (tail-IsApart e.0 e.1 m o),
    same_place e.0 (head-apart e.0 e.1 m o),
    key_eq.beq_iff e.0 key,
    key_eq.beq_iff key e.0,
  )

  -- The key has bytes of its own among those of the plots and those that the difference changes.
  pub record IsOnlyOne (d : Overlay.DbDiff) : Type 0 where
    pub no_plot : (id : Coord) (t : ℕ) → as_bin ex.base.key_bytes (network (plot id t)) ≢ place
    pub put_apart : IsApart d.new_values
    pub del_apart : IsApart d.del_values

  module _ (s : DbState) where
    -- Every bucket of the database can be read.
    pub record IsReadable : Type 0 where
      pub found : (id : Coord) (t : ℕ) → (o : Option RawEvents) × (bucket ex.base s id t ≡ ok o)

    found-cases :
        IsReadable
        → (id : Coord) (t : ℕ)
        → (bucket ex.base s id t ≡ ok none)
          ⊎ ((l : RawEvents) × (bucket ex.base s id t ≡ ok (some l)))
    found-cases readable id t =
        let (l, r) = readable.found id t in
        elim (Option-cases l) [ inl h ↦ inl (r ∙ ap ok h) | inr (k, h) ↦ inr (k, r ∙ ap ok h) ]

    -- A batch is made, and it leaves the key alone.
    record IsFine (r : Result WriteBatch) : Type 0 where
      batch : WriteBatch
      made : r ≡ ok batch
      apart : avoids place batch ≡ true

    IsFine-then :
        (r : Result WriteBatch) (f : WriteBatch → Result WriteBatch)
        → IsFine r
        → ((wb : WriteBatch) → avoids place wb ≡ true → IsFine (f wb))
        → IsFine (and_then r f)
    IsFine-then r f h g = rw h.made (g h.batch h.apart)

    module _ (o : IsOnlyOne s.diff) (readable : IsReadable) where
      put_bucket_apart :
          (id : Coord) (t : ℕ) (l : RawEvents)
          → (key_of (put_bucket ex.base id t l) == place) ≡ false
      put_bucket_apart id t l = ground (
        arith,
        o.no_plot id t,
        list_beq_iff (as_bin ex.base.key_bytes (network (plot id t))) place,
      )

      init_buckets_lem :
          (id : Coord) (n : ℕ)
          → (wb : WriteBatch) × (m : ℕ) × (init_buckets ex.base s id n ≡ ok (wb, m))
            × (avoids place wb ≡ true)
      unfolding init_buckets
      init_buckets_lem id zero = elim (found-cases readable id 0) [
        | inl r ↦ (
          put_bucket ex.base id 0 [] ∷ [],
          0,
          rw r refl,
          ground (arith, put_bucket_apart id 0 []),
        )
        | inr (l, r) ↦ ([], 0, rw r refl, refl)
      ]
      init_buckets_lem id (suc n) = elim (found-cases readable id (suc n * bucket_size)) [
        | inl r ↦
            let (wb, m, g, a) = init_buckets_lem id n in
            (
              put_bucket ex.base id (suc n * bucket_size) [] ∷ wb,
              m,
              rw r (rw g refl),
              ground (arith, put_bucket_apart id (suc n * bucket_size) [], a),
            )
        | inr (l, r) ↦ ([], suc n, rw r refl, refl)
      ]

      compile_bucket_lem :
          (id : Coord) (e : ℕ) (new del : RawEvents) (tb : ℕ)
          → (op : WriteOp) × (compile_bucket ex.base s id e new del tb ≡ ok op)
            × ((key_of op == place) ≡ false)
      unfolding compile_bucket
      compile_bucket_lem id e new del tb = elim (Bool-cases (ltb e tb)) [
        | inl h ↦ rw h (_, refl, put_bucket_apart id (tb * bucket_size) [])
        | inr h ↦
            let (l, r) = readable.found id (tb * bucket_size) in
            rw h (rw r (_, refl, put_bucket_apart id (tb * bucket_size) []))
      ]

      compile_buckets-IsFine :
          (id : Coord) (e : ℕ) (new del : RawEvents) (tbs : BTreeMap.BTreeMap (Unit {0}))
          → IsFine (compile_buckets ex.base s id e new del tbs)
      unfolding compile_buckets
      compile_buckets-IsFine id e new del [] = record { batch = []; made = refl; apart = refl }
      compile_buckets-IsFine id e new del (tb ∷ tbs) =
          let (op, r, a) = compile_bucket_lem id e new del tb.0 in
          let rest = compile_buckets-IsFine id e new del tbs in
          record {
            batch = op ∷ rest.batch;
            made = rw r (rw rest.made refl);
            apart = ground (arith, a, rest.apart);
          }

      compile_plot-IsFine : (id : Coord) → IsFine (compile_plot ex.base s id)
      unfolding compile_plot
      compile_plot-IsFine id =
          let new = or_default (HashMap.get id s.diff.new_events) in
          let del = or_default (HashMap.get id s.diff.del_events) in
          let (wb, m, r, a) = init_buckets_lem id (greatest_bucket new) in
          let rest =
            compile_buckets-IsFine id m new del
              (reverse (tick_buckets del (tick_buckets new []))) in
          record {
            batch = wb ++ rest.batch;
            made = rw r (rw rest.made refl);
            apart = avoids-append place wb rest.batch a rest.apart;
          }

      compile_plots-IsFine : (ps : List Coord) → IsFine (compile_plots ex.base s ps)
      unfolding compile_plots
      compile_plots-IsFine [] = record { batch = []; made = refl; apart = refl }
      compile_plots-IsFine (p ∷ ps) =
          let first = compile_plot-IsFine p in
          let rest = compile_plots-IsFine ps in
          record {
            batch = first.batch ++ rest.batch;
            made = rw first.made (rw rest.made refl);
            apart = avoids-append place first.batch rest.batch first.apart rest.apart;
          }

  -- The row of the key after the puts, the deletions and what leaves it alone.
  applied_row :
      (d : Overlay.DbDiff) (wb : WriteBatch) (rows : Bin → Option Bin)
      → IsOnlyOne d
      → IsUnique d.new_values
      → avoids place wb ≡ true
      → apply
          (compile_puts ex.base d.new_values ++ compile_deletes ex.base d.del_values ++ wb)
          rows
          place
        ≡ (if HashMap.contains_key key d.del_values
            then none
            else or_row (HashMap.get key d.new_values) (rows place))
  applied_row d wb rows o u h =
      let puts = compile_puts ex.base d.new_values in
      let deletes = compile_deletes ex.base d.del_values in
      ap (λ r. r place) (apply-append (puts ++ deletes) wb rows)
      ∙ apply-avoids place wb (apply (puts ++ deletes) rows) h
      ∙ ap (λ r. r place) (apply-append puts deletes rows)
      ∙ apply-deletes d.del_values (apply puts rows) o.del_apart
      ∙ ap (λ r. if HashMap.contains_key key d.del_values then none else r)
          (apply-puts d.new_values rows o.put_apart u)

  -- Let every bucket of the database be readable, and let a key that is no plot have other bytes than every
  -- plot and than every other key that the difference changes or deletes. Then the state of a
  -- difference without a key both changed and deleted or changed twice is compiled to a batch, and
  -- the database to which it is applied has at the key what `_get` of the state gives there.
  pub compile-get :
      (s : DbState)
      → IsReadable s
      → IsOnlyOne s.diff
      → is_plot key ≡ false
      → IsDisjoint s.diff
      → (wb : WriteBatch) × (compile ex.base s ≡ ok wb)
        × ((get_raw ex.base key (record s.db { rows = apply wb s.db.rows })).0 ≡ State.get ex key s)
  unfolding compile State.get get_raw Overlay.is_value_deleted Overlay.get_value
  compile-get s readable o no_plot d =
      let plots =
        compile_plots-IsFine s o readable
          (changed_plots (plots_of s.diff.new_events ++ plots_of s.diff.del_events)) in
      (
        compile_puts ex.base s.diff.new_values
            ++ compile_deletes ex.base s.diff.del_values
            ++ plots.batch,
        rw plots.made refl,
        rw (get_raw, applied_row s.diff plots.batch s.db.rows o d.unique plots.apart)
            (ground (arith, d.apart key)),
      )
