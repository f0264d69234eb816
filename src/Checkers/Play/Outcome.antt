-- ===== src/Checkers/Play/Outcome.antt =====
-- The outcome of a play: an error leaves the board as it was, and a success accounts for every
-- piece.
use blockscape.Base.{
  ℕ, suc, ◌+◌, ◌≤◌, ◌≡◌, ◌≢◌, refl, ◌∙◌, Bool, true, not, ◌||◌, List, [], ◌∷◌, length, ltb, nat_eq,
  if_elim, ap, arith,
}
use blockscape.Checkers.Piece.{
  Player, Direction, Tile, Event, start, join, move, jump, Result, ok, err, move_in_dir,
  jump_in_dir, is_none, is_this_player, is_other_player, valid_direction,
}
use blockscape.Checkers.Board.{Board, tile, idx_to_rc}
use blockscape.Checkers.Board.Laws.{IsShaped, rc_to_idx-idx_to_rc}
use blockscape.Checkers.Board.Count.{bit, count}
use blockscape.Checkers.Play.{
  Outcome, crown, shift, play_move, capture, cannot_land, jump_path, finish_jump, play_jump, play,
  at_idx,
}
use blockscape.Checkers.Play.Steps.{move_in_dir-ne, jump_in_dir-IsJump}
use blockscape.Checkers.Play.Pieces.{
  IsOwner, this_player-IsOwner, other_player-IsOwner, other-not_this, crown-IsShaped, count-crown,
  shift-IsShaped, count-shift, capture-IsShaped, count-capture,
}

abbrev pub mine : Player → Board → ℕ
mine p = count (λ t. is_this_player t p)

abbrev pub theirs : Player → Board → ℕ
theirs p = count (λ t. is_other_player t p)

-- What an outcome says that began at `b` and may take `n` pieces.
abbrev pub Accounts : {A : Type 0} → Board → Player → ℕ → Outcome A → Type 0
Accounts b p n (b', ok _) = IsShaped b' × (mine p b' ≡ mine p b) × (theirs p b' + n ≡ theirs p b)
Accounts b p n (b', err _) = b' ≡ b

-- The pieces that an event takes.
abbrev pub captures : Event → ℕ
captures (jump idx path) = length path
captures e = 0

moved-Accounts :
    (b : Board) (p : Player) (r c nr nc : ℕ)
    → IsShaped b
    → r ≤ 7
    → c ≤ 7
    → nr ≤ 7
    → nc ≤ 7
    → is_none (tile b nr nc) ≡ true
    → r ≢ nr
    → Accounts {A = Unit {0}} b p 0 (crown (shift b r c nr nc) nr nc, ok tt)
moved-Accounts b p r c nr nc s hr hc h g free ne =
    let s' = shift-IsShaped b r c s hr hc nr nc h g in
    let crowned = count-crown (shift b r c nr nc) nr nc s' h g in
    let moved =
      λ (f : Tile → Bool) (o : IsOwner f). count-shift b r c s hr hc f nr nc o h g ne free in
    let us = this_player-IsOwner p in
    let them = other_player-IsOwner p in
    (
      crown-IsShaped (shift b r c nr nc) nr nc s' h g,
      crowned (λ t. is_this_player t p) us ∙ moved (λ t. is_this_player t p) us,
      omega (arith, crowned (λ t. is_other_player t p) them, moved (λ t. is_other_player t p) them),
    )

play_move-Accounts :
    (b : Board) (p : Player) (dir : Direction) (r c : ℕ)
    → IsShaped b
    → r ≤ 7
    → c ≤ 7
    → Accounts b p 0 (play_move b p dir r c)
unfolding play_move
play_move-Accounts b p dir r c s hr hc =
    let (nr, nc) = move_in_dir dir r c in
    let P = λ (o : Outcome (Unit {0})). Accounts b p 0 o in
    if_elim P (is_none (tile b r c)) _ _ (λ _. refl)
      λ _.
        if_elim P (not (is_this_player (tile b r c) p)) _ _ (λ _. refl)
          λ _.
            if_elim P (not (valid_direction (tile b r c) dir)) _ _ (λ _. refl)
              λ _.
                if_elim P (ltb 7 nr || ltb 7 nc || not (is_none (tile b nr nc))) _ _ (λ _. refl)
                  λ clear.
                    moved-Accounts b p r c nr nc s hr hc (ground arith) (ground arith)
                      (ground arith) (move_in_dir-ne dir r c hr hc (ground arith))

-- What the loop over a path says that began at `b`, to restore `old`.
abbrev PathAccounts : Board → Board → Player → ℕ → Outcome (ℕ × ℕ) → Type 0
PathAccounts old b p n (b', ok (r, c)) =
    IsShaped b' × (r ≤ 7) × (c ≤ 7) × (mine p b' ≡ mine p b) × (theirs p b' + n ≡ theirs p b)
PathAccounts old b p n (b', err _) = b' ≡ old

-- One jump more at the front of the path.
PathAccounts-suc :
    (old b b1 : Board) (p : Player) (n : ℕ) (o : Outcome (ℕ × ℕ))
    → mine p b1 ≡ mine p b
    → theirs p b1 + 1 ≡ theirs p b
    → PathAccounts old b1 p n o
    → PathAccounts old b p (suc n) o
PathAccounts-suc old b b1 p n (b', ok (r, c)) m t h =
    (h.0, h.1, h.2, h.3 ∙ m, omega (arith, t, h.4))
PathAccounts-suc old b b1 p n (b', err e) m t h = h

jump_path-Accounts :
    (p : Player) (old : Board) (path : List Direction) (b : Board) (r c : ℕ)
    → IsShaped b
    → r ≤ 7
    → c ≤ 7
    → PathAccounts old b p (length path) (jump_path p old path b r c)
unfolding jump_path
jump_path-Accounts p old [] b r c s hr hc = (s, hr, hc, refl, omega arith)
jump_path-Accounts p old (dir ∷ path) b r c s hr hc =
    let over = move_in_dir dir r c in
    let land = jump_in_dir dir r c in
    let b1 = capture b r c over land in
    let P = λ (o : Outcome (ℕ × ℕ)). PathAccounts old b p (suc (length path)) o in
    if_elim P (not (valid_direction (tile b r c) dir)) _ _ (λ _. refl)
      λ _.
        if_elim P (cannot_land b p over land) _ _ (λ _. refl)
          λ clear.
            let h : land.0 ≤ 7 = ground arith in
            let g : land.1 ≤ 7 = ground arith in
            let free : is_none (tile b land.0 land.1) ≡ true = ground arith in
            let theirs : is_other_player (tile b over.0 over.1) p ≡ true = ground arith in
            let j = jump_in_dir-IsJump dir r c hr hc h g in
            PathAccounts-suc old b b1 p (length path) _
              (omega (
                arith,
                count-capture b r c s hr hc over land j h g (λ t. is_this_player t p)
                    (this_player-IsOwner p) free,
                ap bit (other-not_this (tile b over.0 over.1) p theirs),
              ))
              (omega (
                arith,
                count-capture b r c s hr hc over land j h g (λ t. is_other_player t p)
                    (other_player-IsOwner p) free,
                ap bit theirs,
              ))
              (jump_path-Accounts p old path b1 land.0 land.1
                (capture-IsShaped b r c s hr hc over land j h g) h g)

finish_jump-Accounts :
    (b : Board) (p : Player) (n : ℕ) (o : Outcome (ℕ × ℕ))
    → PathAccounts b b p n o
    → Accounts b p n (finish_jump o)
finish_jump-Accounts b p n (b', ok (r, c)) (s, hr, hc, m, t) =
    let crowned = count-crown b' r c s hr hc in
    (
      crown-IsShaped b' r c s hr hc,
      crowned (λ t. is_this_player t p) (this_player-IsOwner p) ∙ m,
      omega (arith, crowned (λ t. is_other_player t p) (other_player-IsOwner p), t),
    )
finish_jump-Accounts b p n (b', err e) h = h

play_jump-Accounts :
    (b : Board) (p : Player) (path : List Direction) (r c : ℕ)
    → IsShaped b
    → r ≤ 7
    → c ≤ 7
    → Accounts b p (length path) (play_jump b p path r c)
unfolding play_jump
play_jump-Accounts b p path r c s hr hc =
    let P = λ (o : Outcome (Unit {0})). Accounts b p (length path) o in
    if_elim P (is_none (tile b r c)) _ _ (λ _. refl)
      λ _.
        if_elim P (not (is_this_player (tile b r c) p)) _ _ (λ _. refl)
          λ _. finish_jump-Accounts b p (length path) _ (jump_path-Accounts p b path b r c s hr hc)

at_idx-Accounts :
    (b : Board) (p : Player) (n idx : ℕ) (k : ℕ → ℕ → Outcome (Unit {0})) (x : Result (ℕ × ℕ))
    → idx_to_rc idx ≡ x
    → ((r c : ℕ) → r ≤ 7 → c ≤ 7 → Accounts b p n (k r c))
    → Accounts b p n (at_idx b x k)
at_idx-Accounts b p n idx k (ok (r, c)) e h =
    let q = rc_to_idx-idx_to_rc idx e in h r c (omega (arith, q.0)) (omega (arith, q.1))
at_idx-Accounts b p n idx k (err _) e h = refl

-- A play that fails leaves the board as it was, also in the middle of a path of jumps. A play that
-- succeeds keeps the board eight by eight, loses none of the player's pieces, and takes from the
-- opponent exactly one piece for each jump of the path, none for a move.
pub play-Accounts :
    (b : Board) (e : Event) (p : Player) → IsShaped b → Accounts b p (captures e) (play b e p)
unfolding play
play-Accounts b (start x y) p s = refl
play-Accounts b (join x) p s = refl
play-Accounts b (move idx dir) p s =
    at_idx-Accounts b p 0 idx (play_move b p dir) (idx_to_rc idx) refl
      (λ r c. play_move-Accounts b p dir r c s)
play-Accounts b (jump idx path) p s =
    at_idx-Accounts b p (length path) idx (play_jump b p path) (idx_to_rc idx) refl
      (λ r c. play_jump-Accounts b p path r c s)
