-- ===== src/Forging/Waits.antt =====
-- Waits of forgers (`gen_wait` of core/src/forging/epos.rs), and the block that a forger keeps.
use native.Mathlib.Nat.{div-mul-le_self, div-le_self, le-div_iff_mul-le, mul-le-mul_left}
use blockscape.Forging.{EposConfig, ok, ◌>>=◌, gen_wait, wrapping_sub, min, div, wait_of, u64_max}
use blockscape.Base.{
  ℕ, ◌+◌, ◌*◌, ◌/◌, ◌%◌, ◌^◌, ◌≤◌, ◌<◌, ◌≡◌, refl, ap, false, Bool-cases, inl, inr, ◌∙◌, nat_eq,
  ◌==◌, if◌then◌else◌, arith,
}

min_comm : (a b : ℕ) → min a b ≡ min b a
min_comm a b = ground arith

-- The distance between two numbers of 64 bits, the shorter way around.
abbrev pub distance : ℕ → ℕ → ℕ
distance a b = min (wrapping_sub a b) (wrapping_sub b a)

distance_bound : (a b : ℕ) → a < 2 ^ 64 → b < 2 ^ 64 → distance a b ≤ 2 ^ 63
distance_bound a b h g = ground arith

-- The wait does not change when the target and the value reached are swapped.
pub gen_wait_comm :
    (config : EposConfig) (diff stake target actual : ℕ)
    → gen_wait config diff stake target actual ≡ gen_wait config diff stake actual target
unfolding gen_wait
gen_wait_comm config diff stake target actual =
    ap
      (λ d.
        if stake == 0
        then ok u64_max
        else (div u64_max ((diff + 1) % 2 ^ 64) >>= λ r. div r config.rate_target)
          >>= wait_of d stake)
      (min_comm (wrapping_sub target actual) (wrapping_sub actual target))

div_pos : (a b : ℕ) → 0 < b → div a b ≡ ok (a / b)
div_pos a b h = ground arith

div_antitone : (q s t : ℕ) → 0 < s → s ≤ t → q / t ≤ q / s
div_antitone q s t h g =
    (le-div_iff_mul-le {k = s} {x = q / t} {y = q} h).1
      (omega (arith, mul-le-mul_left (q / t) g, div-mul-le_self q t))

-- How many units of distance make a millisecond.
abbrev pub range : EposConfig → ℕ → ℕ
range config diff = u64_max / (diff + 1) / config.rate_target

range_pos :
    (config : EposConfig) (diff : ℕ)
    → 0 < config.rate_target
    → config.rate_target * (diff + 1) ≤ u64_max
    → 0 < range config diff
range_pos config diff h g =
    (le-div_iff_mul-le {k = config.rate_target} {x = 1} {y = u64_max / (diff + 1)} h).1 (
      omega (
        arith,
        (le-div_iff_mul-le {k = diff + 1} {x = config.rate_target} {y = u64_max} (omega arith)).1 g,
      ))

gen_wait_value :
    (config : EposConfig) (diff stake target actual : ℕ)
    → 0 < stake
    → diff < u64_max
    → 0 < config.rate_target
    → config.rate_target * (diff + 1) ≤ u64_max
    → gen_wait config diff stake target actual
      ≡ ok (distance target actual / range config diff / stake)
unfolding gen_wait
gen_wait_value config diff stake target actual s d r g =
    let e1 : (diff + 1) % 2 ^ 64 ≡ diff + 1 = omega arith in
    let e2 : (stake == 0) ≡ false = ground arith in
    rw
      (
        e2,
        e1,
        div_pos u64_max (diff + 1) (omega arith),
        div_pos (u64_max / (diff + 1)) config.rate_target r,
        div_pos (distance target actual) (range config diff) (range_pos config diff r g),
        div_pos (distance target actual / range config diff) stake s,
      )
      refl

-- A value of the quotient by a stake, or the longest wait for no stake.
abbrev wait_at : ℕ → ℕ → ℕ
wait_at q stake = if stake == 0 then u64_max else q / stake

wait_at_some : (q stake : ℕ) → (stake == 0) ≡ false → q / stake ≡ wait_at q stake
wait_at_some q stake e = rw e refl

gen_wait_at :
    (config : EposConfig) (diff stake target actual : ℕ)
    → diff < u64_max
    → 0 < config.rate_target
    → config.rate_target * (diff + 1) ≤ u64_max
    → gen_wait config diff stake target actual
      ≡ ok (wait_at (distance target actual / range config diff) stake)
unfolding gen_wait
gen_wait_at config diff stake target actual d r g = elim (Bool-cases (stake == 0)) [
  | inl e ↦ rw e refl
  | inr e ↦
      gen_wait_value config diff stake target actual (ground arith) d r g
      ∙ ap ok (wait_at_some (distance target actual / range config diff) stake e)
]

wait_at_antitone : (q s t : ℕ) → q ≤ u64_max → s ≤ t → wait_at q t ≤ wait_at q s
wait_at_antitone q s t h g = elim (Bool-cases (s == 0)) [
  | inl e ↦ ground (arith, div-le_self q t)
  | inr e ↦ ground (arith, div_antitone q s t)
]

wait_at_bound : (q s : ℕ) → wait_at q s * s ≤ q
wait_at_bound q s = ground (arith, div-mul-le_self q s)

-- At a difficulty whose next number times the rate fits 64 bits, the wait is computed without a
-- panic for every stake, zero included, does not grow with the stake, and times the stake it is at
-- most 2^63.
pub gen_wait_lem :
    (config : EposConfig) (diff stake more target actual : ℕ)
    → stake ≤ more
    → diff < u64_max
    → target < 2 ^ 64
    → actual < 2 ^ 64
    → 0 < config.rate_target
    → config.rate_target * (diff + 1) ≤ u64_max
    → (w : ℕ) × (v : ℕ) × (gen_wait config diff stake target actual ≡ ok w)
      × (gen_wait config diff more target actual ≡ ok v)
      × (v ≤ w)
      × (w * stake ≤ 2 ^ 63)
gen_wait_lem config diff stake more target actual m d t a r g =
    let q = distance target actual / range config diff in
    let bound : q ≤ 2 ^ 63 = omega (
      arith,
      div-le_self (distance target actual) (range config diff),
      distance_bound target actual t a,
    ) in
    (
      wait_at q stake,
      wait_at q more,
      gen_wait_at config diff stake target actual d r g,
      gen_wait_at config diff more target actual d r g,
      wait_at_antitone q stake more (omega (arith, bound)) m,
      omega (arith, bound, wait_at_bound q stake),
    )
