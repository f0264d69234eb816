-- ===== src/Checkers/Play/Steps.antt =====
-- Where a step leads: on the board, the target of a move or a jump is one or two tiles away along
-- both axes, and whatever wraps below zero is off the board.
use blockscape.Base.{ℕ, ◌+◌, ◌-◌, ◌^◌, ◌≤◌, ◌≡◌, ◌≢◌, leb, if◌then◌else◌, arith}
use blockscape.Base.Words.{as_usize_up, as_usize_down}
use blockscape.Checkers.Piece.{Direction, nw, ne, se, sw, move_in_dir, jump_in_dir}

-- The row or column `k` tiles on, or back.
abbrev up : ℕ → ℕ → ℕ
up k r = r + k

abbrev down : ℕ → ℕ → ℕ
down k r = if leb k r then r - k else 2 ^ 64 - (k - r)

abbrev pub target : ℕ → Direction → ℕ → ℕ → ℕ × ℕ
target k nw r c = (down k r, down k c)
target k ne r c = (down k r, up k c)
target k se r c = (up k r, up k c)
target k sw r c = (up k r, down k c)

pub move_in_dir-target :
    (dir : Direction) (r c : ℕ) → r ≤ 7 → c ≤ 7 → move_in_dir dir r c ≡ target 1 dir r c
unfolding move_in_dir
move_in_dir-target nw r c h g =
    cc (as_usize_down r 0 h (omega arith), as_usize_down c 0 g (omega arith))
move_in_dir-target ne r c h g =
    cc (as_usize_down r 0 h (omega arith), as_usize_up c 1 g (omega arith))
move_in_dir-target se r c h g =
    cc (as_usize_up r 1 h (omega arith), as_usize_up c 1 g (omega arith))
move_in_dir-target sw r c h g =
    cc (as_usize_up r 1 h (omega arith), as_usize_down c 0 g (omega arith))

pub jump_in_dir-target :
    (dir : Direction) (r c : ℕ) → r ≤ 7 → c ≤ 7 → jump_in_dir dir r c ≡ target 2 dir r c
unfolding jump_in_dir
jump_in_dir-target nw r c h g =
    cc (as_usize_down r 1 h (omega arith), as_usize_down c 1 g (omega arith))
jump_in_dir-target ne r c h g =
    cc (as_usize_down r 1 h (omega arith), as_usize_up c 2 g (omega arith))
jump_in_dir-target se r c h g =
    cc (as_usize_up r 2 h (omega arith), as_usize_up c 2 g (omega arith))
jump_in_dir-target sw r c h g =
    cc (as_usize_up r 2 h (omega arith), as_usize_down c 1 g (omega arith))

-- A jump that lands on the board passes over a tile of the board, which is neither end, and its
-- ends differ.
pub record IsJump (r c : ℕ) (over land : ℕ × ℕ) : Type 0 where
  pub row : over.0 ≤ 7
  pub column : over.1 ≤ 7
  pub leaves : (r ≡ over.0) → ⊥
  pub lands : (over.0 ≡ land.0) → ⊥
  pub moves : (r ≡ land.0) → ⊥

target-IsJump :
    (dir : Direction) (r c : ℕ)
    → r ≤ 7
    → c ≤ 7
    → (target 2 dir r c).0 ≤ 7
    → (target 2 dir r c).1 ≤ 7
    → IsJump r c (target 1 dir r c) (target 2 dir r c)
target-IsJump nw r c h g lr lc = ground arith
target-IsJump ne r c h g lr lc = ground arith
target-IsJump se r c h g lr lc = ground arith
target-IsJump sw r c h g lr lc = ground arith

-- A jump that lands on the board passes over a tile of the board in another row than its ends,
-- which lie in different rows: no index of a jump leaves the board.
pub jump_in_dir-IsJump :
    (dir : Direction) (r c : ℕ)
    → r ≤ 7
    → c ≤ 7
    → (jump_in_dir dir r c).0 ≤ 7
    → (jump_in_dir dir r c).1 ≤ 7
    → IsJump r c (move_in_dir dir r c) (jump_in_dir dir r c)
jump_in_dir-IsJump dir r c h g =
    rw (move_in_dir-target dir r c h g, jump_in_dir-target dir r c h g) (target-IsJump dir r c h g)

move-target-ne :
    (dir : Direction) (r c : ℕ) → r ≤ 7 → (target 1 dir r c).0 ≤ 7 → r ≢ (target 1 dir r c).0
move-target-ne nw r c h g = ground arith
move-target-ne ne r c h g = ground arith
move-target-ne se r c h g = ground arith
move-target-ne sw r c h g = ground arith

-- A move that stays on the board changes its row.
pub move_in_dir-ne :
    (dir : Direction) (r c : ℕ)
    → r ≤ 7
    → c ≤ 7
    → (move_in_dir dir r c).0 ≤ 7
    → r ≢ (move_in_dir dir r c).0
move_in_dir-ne dir r c h g = rw (move_in_dir-target dir r c h g) (move-target-ne dir r c h)
