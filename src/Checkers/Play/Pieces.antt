-- ===== src/Checkers/Play/Pieces.antt =====
-- What the writes of a play do to the shape of the board and to the counts of its pieces.
use blockscape.Base.{
  ℕ, ◌+◌, ◌≤◌, ◌≡◌, ◌≢◌, refl, Bool, true, false, ◌||◌, nat_eq, ◌==◌, if_elim, ap, arith,
}
use blockscape.Checkers.Piece.{Player, Tile, is_none, is_this_player, is_other_player, upgrade}
use blockscape.Checkers.Board.{Board, tile, put}
use blockscape.Checkers.Board.Laws.{IsShaped, put-IsShaped, tile-put}
use blockscape.Checkers.Board.Count.{bit, count, count-put}
use blockscape.Checkers.Play.{crown, shift, capture}
use blockscape.Checkers.Play.Steps.{IsJump}

-- A test of the owner: it fails at an empty tile, and a crown does not change it.
pub record IsOwner (f : Tile → Bool) : Type 0 where
  pub empty : f Tile.none ≡ false
  pub crowned : (t : Tile) → f (upgrade t) ≡ f t

this_player-upgrade : (p : Player) (t : Tile) → is_this_player (upgrade t) p ≡ is_this_player t p
unfolding upgrade is_this_player
this_player-upgrade p Tile.none = refl
this_player-upgrade p _ = refl

other_player-upgrade : (p : Player) (t : Tile) → is_other_player (upgrade t) p ≡ is_other_player t p
unfolding upgrade is_other_player
other_player-upgrade p Tile.none = refl
other_player-upgrade p _ = refl

pub this_player-IsOwner : (p : Player) → IsOwner (λ t. is_this_player t p)
unfolding is_this_player
this_player-IsOwner p = record { empty = refl; crowned = this_player-upgrade p }

pub other_player-IsOwner : (p : Player) → IsOwner (λ t. is_other_player t p)
unfolding is_other_player
other_player-IsOwner p = record { empty = refl; crowned = other_player-upgrade p }

-- A tile that is the opponent's is not the player's.
pub other-not_this :
    (t : Tile) (p : Player) → is_other_player t p ≡ true → is_this_player t p ≡ false
unfolding is_this_player is_other_player
other-not_this Tile.none p h = cc
other-not_this t p h = ground arith

is_none→≡ : (t : Tile) → is_none t ≡ true → t ≡ Tile.none
is_none→≡ Tile.none h = refl
is_none→≡ t h = cc

module _ (b : Board) (r c : ℕ) (s : IsShaped b) (hr : r ≤ 7) (hc : c ≤ 7) where
  pub crown-IsShaped : IsShaped (crown b r c)
  unfolding crown
  crown-IsShaped =
      let t = upgrade (tile b r c) in
      if_elim IsShaped (r == 0 || r == 7) (put b r c t) b (λ _. put-IsShaped b r c s hr hc t)
        (λ _. s)

  pub count-crown : (f : Tile → Bool) → IsOwner f → count f (crown b r c) ≡ count f b
  unfolding crown
  count-crown f o =
      if_elim (λ x. count f x ≡ count f b) (r == 0 || r == 7) (put b r c (upgrade (tile b r c))) b
        (λ _. omega (
          arith,
          count-put f b r c (upgrade (tile b r c)) s hr hc,
          ap bit (o.crowned (tile b r c)),
        ))
        (λ _. refl)

  pub shift-IsShaped : (nr nc : ℕ) → nr ≤ 7 → nc ≤ 7 → IsShaped (shift b r c nr nc)
  unfolding shift
  shift-IsShaped nr nc h g = put-IsShaped _ r c (put-IsShaped b nr nc s h g _) hr hc _

  -- A piece that goes to an empty tile of another row leaves every count as it was.
  pub count-shift :
      (f : Tile → Bool) (nr nc : ℕ)
      → IsOwner f
      → nr ≤ 7
      → nc ≤ 7
      → r ≢ nr
      → is_none (tile b nr nc) ≡ true
      → count f (shift b r c nr nc) ≡ count f b
  unfolding shift
  count-shift f nr nc o h g ne free =
      let b1 = put b nr nc (tile b r c) in
      let s1 = put-IsShaped b nr nc s h g (tile b r c) in
      let same : tile b1 r c ≡ tile b r c =
        ground (arith, tile-put b nr nc s h g (tile b r c) r c) in
      omega (
        arith,
        count-put f b nr nc (tile b r c) s h g,
        count-put f b1 r c Tile.none s1 hr hc,
        ap (λ t. bit (f t)) same,
        ap (λ t. bit (f t)) (is_none→≡ (tile b nr nc) free),
        ap bit o.empty,
      )

  module _ (over land : ℕ × ℕ) (j : IsJump r c over land) (h : land.0 ≤ 7) (g : land.1 ≤ 7) where
    pub capture-IsShaped : IsShaped (capture b r c over land)
    unfolding capture
    capture-IsShaped =
        put-IsShaped _ r c
          (put-IsShaped _ over.0 over.1 (put-IsShaped b land.0 land.1 s h g _) j.row j.column _) hr
          hc _

    -- A jump takes the piece it passes over from the counts, and no other.
    pub count-capture :
        (f : Tile → Bool)
        → IsOwner f
        → is_none (tile b land.0 land.1) ≡ true
        → count f (capture b r c over land) + bit (f (tile b over.0 over.1)) ≡ count f b
    unfolding capture
    count-capture f o free =
        let t = tile b r c in
        let b1 = put b land.0 land.1 t in
        let s1 = put-IsShaped b land.0 land.1 s h g t in
        let b2 = put b1 over.0 over.1 Tile.none in
        let s2 = put-IsShaped b1 over.0 over.1 s1 j.row j.column Tile.none in
        let passed : tile b1 over.0 over.1 ≡ tile b over.0 over.1 =
          ground (arith, tile-put b land.0 land.1 s h g t over.0 over.1) in
        let left : tile b2 r c ≡ t = ground (
          arith,
          tile-put b land.0 land.1 s h g t r c,
          tile-put b1 over.0 over.1 s1 j.row j.column Tile.none r c,
        ) in
        omega (
          arith,
          count-put f b land.0 land.1 t s h g,
          count-put f b1 over.0 over.1 Tile.none s1 j.row j.column,
          count-put f b2 r c Tile.none s2 hr hc,
          ap (λ t. bit (f t)) passed,
          ap (λ t. bit (f t)) left,
          ap (λ t. bit (f t)) (is_none→≡ (tile b land.0 land.1) free),
          ap bit o.empty,
        )
