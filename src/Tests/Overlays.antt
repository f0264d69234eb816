-- ===== src/Tests/Overlays.antt =====
-- Examples of differences from the database, and of the batches that they make.
use blockscape.Coord.{Coord, coord_beq}
use blockscape.Event.{RawEvents}
use blockscape.Event.Laws.{holds}
use blockscape.Database.Key.{
  Key, cache, network, current_head, validator_key, validator_stake, admin_key_id, generic, as_bin,
}
use blockscape.Database.Key.Same.{key_eq}
use blockscape.Database.Store.{Database, ok, err, not_found, get_raw}
use blockscape.Overlay
use blockscape.Overlay.{DbDiff, relevant_key}
use blockscape.Overlay.State
use blockscape.Overlay.State.{DbState, put, delete, overlay_events}
use blockscape.Overlay.Compile.{apply, compile, WriteBatch, bucket}
use blockscape.Overlay.Values.{IsDisjoint, relevant_key-new, get-put, get-delete}
use blockscape.Overlay.Batch.{IsOnlyOne, IsReadable, compile-get}
use blockscape.Overlay.Events.{FitsPlot, overlay-events}
use blockscape.Base.{
  ◌≡◌, refl, true, false, none, some, [], ◌∷◌, nat_eq, list_eq, arith, if◌then◌else◌, ◌==◌,
  list_beq, arith, ap, inl, inr, Bool-cases,
}
use blockscape.Base.Int.{pos}
use blockscape.Tests.Chains.{sample_chain}
use blockscape.Tests.Codecs.{sample_externals}

-- The database has the value 5 of the key of the administrator.
abbrev stored : Database
stored = record {
  rows = λ k.
      if k == as_bin sample_externals.key_bytes (network admin_key_id) then some (5 ∷ []) else none;
  head_block = 0;
  head_height = 0;
}

-- A state that has deleted the key of the administrator and put the value 7 at another key.
abbrev state : DbState
state = record {
  db = stored;
  diff = record {
    filters = none;
    bounds = none;
    new_values = (cache current_head, 7 ∷ []) ∷ [];
    del_values = (network admin_key_id, tt) ∷ [];
    new_events = [];
    del_events = [];
  };
  head_block = 0;
  head_height = 0;
}

state_IsDisjoint : IsDisjoint state.diff
state_IsDisjoint = record {
  unique = (refl, tt);
  apart = λ k.
      ground
        (arith, key_eq.beq_iff k (cache current_head), key_eq.beq_iff k (network admin_key_id));
}

relevant_key-new_example :
    relevant_key sample_externals.key_bytes
      (Overlay.new (some ((1 ∷ []) ∷ (0 ∷ []) ∷ [])) none)
      (cache current_head)
    ≡ false
unfolding list_beq
relevant_key-new_example =
    relevant_key-new sample_externals.key_bytes ((1 ∷ []) ∷ (0 ∷ []) ∷ []) none (cache current_head)

-- A value put at a deleted key is lost.
get-put_example :
    State.get sample_chain
      (network admin_key_id)
      (put sample_chain (network admin_key_id) (9 ∷ []) state).1
    ≡ ok (5 ∷ [])
unfolding coord_beq list_beq relevant_key Overlay.is_value_deleted get_raw
get-put_example =
    get-put sample_chain state (network admin_key_id) (network admin_key_id) (9 ∷ [])
      state_IsDisjoint refl

get-delete_example :
    State.get sample_chain (cache current_head) (delete sample_chain (cache current_head) state).1
    ≡ err (not_found (cache current_head))
unfolding coord_beq list_beq relevant_key get_raw
get-delete_example =
    get-delete sample_chain state (cache current_head) (cache current_head) state_IsDisjoint refl

-- The stake of a validator is changed, and a value under a free name is deleted.
abbrev stake : Key
stake = network (validator_stake 3)

abbrev staked : DbState
staked = record state {
  diff = record state.diff {
    new_values = (stake, 9 ∷ []) ∷ (network (validator_key 3), 7 ∷ []) ∷ [];
    del_values = (network (generic (5 ∷ [])), tt) ∷ [];
  };
}

staked-IsDisjoint : IsDisjoint staked.diff
staked-IsDisjoint = record {
  unique = (refl, (refl, tt));
  apart = λ k. ground (
    arith,
    key_eq.beq_iff k stake,
    key_eq.beq_iff k (network (validator_key 3)),
    key_eq.beq_iff k (network (generic (5 ∷ []))),
  );
}

stake-IsOnlyOne : IsOnlyOne sample_chain stake staked.diff
stake-IsOnlyOne = record {
  no_plot = λ id t h. absurd (ground arith);
  put_apart = λ j h p. elim (Bool-cases (j == stake)) [
    | inl e ↦ (key_eq.beq_iff j stake).0 e
    | inr e ↦
        let other : j ≡ network (validator_key 3) =
          ground (arith, h, e, key_eq.beq_iff j (network (validator_key 3))) in
        absurd (ground (arith, ap (as_bin sample_externals.key_bytes) other, p))
  ];
  del_apart = λ j h p.
      let other : j ≡ network (generic (5 ∷ [])) =
        ground (arith, h, key_eq.beq_iff j (network (generic (5 ∷ [])))) in
      absurd (ground (arith, ap (as_bin sample_externals.key_bytes) other, p));
}

staked-IsReadable : IsReadable sample_chain stake staked
unfolding bucket get_raw list_beq
staked-IsReadable = record { found = λ id t. (none, refl) }

compile-get_example :
    (wb : WriteBatch) × (compile sample_externals staked ≡ ok wb)
    × ((get_raw sample_externals stake (record stored { rows = apply wb stored.rows })).0
        ≡ State.get sample_chain stake staked)
compile-get_example =
    compile-get sample_chain stake staked staked-IsReadable stake-IsOnlyOne refl staked-IsDisjoint

abbrev here : Coord
here = record { x = pos 1; y = pos 2 }

abbrev base : RawEvents
base = (5, (1 ∷ []) ∷ []) ∷ []

-- The only event of the database is removed.
abbrev removal : DbDiff
removal = record state.diff { del_events = (here, base) ∷ [] }

removal-FitsPlot : FitsPlot removal here base
unfolding coord_beq
removal-FitsPlot = record {
  valid = record {
    base_valid = record { sorted = (omega arith, tt); tidy = refl };
    new_valid = record { sorted = tt; tidy = refl };
    del_valid = record { sorted = (omega arith, tt); tidy = refl };
  };
  removed = λ t x h. h;
  added = λ t x h. absurd (cc);
}

overlay-events_example :
    (holds (overlay_events (Overlay.add_event removal here 5 (1 ∷ [])) here 0 base) 5 (1 ∷ [])
      ≡ true)
    × (holds (overlay_events (Overlay.remove_event removal here 5 (1 ∷ [])) here 0 base) 5 (1 ∷ [])
        ≡ false)
unfolding Overlay.relevant_plot overlay_events coord_beq list_beq
overlay-events_example =
    overlay-events removal here here 5 (1 ∷ []) base 0 5 (1 ∷ []) removal-FitsPlot refl refl
