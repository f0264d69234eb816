-- ===== src/Network/Session/Timeout.antt =====
-- A peer that stays silent: the checks of its session end it.
use blockscape.Network.Message.{ping, introduce}
use blockscape.Network.Session.{
  Context, Session, is_introduced, diff, ping_timeout, timeout_tolerance,
}
use blockscape.Network.Session.Checks.{check_conn, ping_or_end, strike_late, introduce_again}
use blockscape.Network.Session.Laws.{is_some, is_sound, send-Sent, check_conn_done, check_conn_live}
use blockscape.Base.{
  ℕ, suc, ◌+◌, ◌≤◌, ◌≡◌, refl, ap, ◌∙◌, Bool, true, false, ◌&&◌, ◌⊎◌, inl, inr, none, some, List,
  [], ◌∷◌, length, leb, ltb, nat_eq, Option-cases, Bool-cases, arith,
}
use blockscape.Base.Int.{ℤ, ltb_ℤ}

-- Checks at these times, from the first to the last.
unfoldable pub check_all : Context → List ℤ → Session → Session
unfolding check_conn
check_all c [] s = s
check_all c (t ∷ ts) s = check_all c ts (check_conn c t t s)

-- Each time is later than the one before by more than the time-out of a ping.
abbrev pub spaced_from : ℤ → List ℤ → Bool
spaced_from last [] = true
spaced_from last (t ∷ ts) = ltb_ℤ ping_timeout (diff last t) && spaced_from t ts

abbrev pub spaced : List ℤ → Bool
spaced [] = true
spaced (t ∷ ts) = spaced_from t ts

module _ (c : Context) where
  check_all_done : (ts : List ℤ) (s : Session) → is_some s.done ≡ true → check_all c ts s ≡ s
  unfolding check_all
  check_all_done [] s h = refl
  check_all_done (t ∷ ts) s h =
      ap (check_all c ts) (check_conn_done c t t s h) ∙ check_all_done ts s h

  -- A session that waits for the answer to a ping of this time.
  record Waits (t : ℤ) (n : ℕ) (s : Session) : Type 0 where
    live : s.done ≡ none
    introduced : is_introduced s ≡ true
    pinged : s.last_ping_send ≡ some t
    strikes : n ≤ s.strikes
    few : s.strikes ≤ 3

  ping_or_end-Waits :
      (t : ℤ) (n : ℕ) (s : Session)
      → n ≤ s.strikes
      → s.done ≡ none
      → is_introduced s ≡ true
      → (is_some (ping_or_end c t s).done ≡ true) ⊎ Waits t n (ping_or_end c t s)
  unfolding is_introduced
  ping_or_end-Waits t n s h d i =
      let r = send-Sent c (ping t) false s in
      elim (Bool-cases (ltb timeout_tolerance s.strikes)) [
        | inl g ↦ inl (ground arith)
        | inr g ↦ elim r.done [
          | inr e ↦ inl (ground arith)
          | inl e ↦ inr (record {
            live = ground arith;
            introduced = ground (arith, r.port);
            pinged = ground arith;
            strikes = ground (arith, r.strikes);
            few = ground (arith, r.strikes);
          })
        ]
      ]

  live_check :
      (t : ℤ) (s : Session)
      → s.done ≡ none
      → is_introduced s ≡ true
      → check_conn c t t s ≡ ping_or_end c t (strike_late c t s)
  live_check t s d i = check_conn_live c t t s d ∙ rw i refl

  first-Waits :
      (t : ℤ) (s : Session)
      → s.done ≡ none
      → is_introduced s ≡ true
      → (is_some (check_conn c t t s).done ≡ true) ⊎ Waits t 0 (check_conn c t t s)
  unfolding is_introduced
  first-Waits t s d i =
      rw (live_check t s d i)
        (ping_or_end-Waits t 0 (strike_late c t s) (omega arith) (ground arith) (ground arith))

  next-Waits :
      (l t : ℤ) (n : ℕ) (s : Session)
      → Waits l n s
      → ltb_ℤ ping_timeout (diff l t) ≡ true
      → (is_some (check_conn c t t s).done ≡ true) ⊎ Waits t (suc n) (check_conn c t t s)
  unfolding is_introduced
  next-Waits l t n s w h = rw (live_check t s w.live w.introduced) (
      ping_or_end-Waits t (suc n) (strike_late c t s) (ground (arith, w.pinged, w.strikes, w.few))
        (ground (arith, w.live)) (ground (arith, w.introduced)))

  -- Checks of a session that waits, until the strikes are too many.
  Waits-end :
      (ts : List ℤ) (l : ℤ) (n : ℕ) (s : Session)
      → Waits l n s
      → spaced_from l ts ≡ true
      → 4 ≤ n + length ts
      → is_some (check_all c ts s).done ≡ true
  unfolding check_all
  Waits-end [] l n s w h g = absurd (omega (arith, w.strikes, w.few))
  Waits-end (t ∷ ts) l n s w h g = elim (next-Waits l t n s w (ground arith)) [
    | inl d ↦ ap (λ x. is_some x.done) (check_all_done ts (check_conn c t t s) d) ∙ d
    | inr v ↦ Waits-end ts t (suc n) (check_conn c t t s) v (ground arith) (omega arith)
  ]

  -- A session that is not introduced after so many checks.
  record Asks (n : ℕ) (s : Session) : Type 0 where
    live : s.done ≡ none
    unknown : is_introduced s ≡ false
    strikes : n ≤ s.strikes
    few : s.strikes ≤ 3

  early_check :
      (t : ℤ) (s : Session)
      → s.done ≡ none
      → is_introduced s ≡ false
      → check_conn c t t s ≡ introduce_again c s
  early_check t s d i = check_conn_live c t t s d ∙ rw i refl

  next-Asks :
      (t : ℤ) (n : ℕ) (s : Session)
      → Asks n s
      → (is_some (check_conn c t t s).done ≡ true) ⊎ Asks (suc n) (check_conn c t t s)
  unfolding is_introduced
  next-Asks t n s w =
      let r = send-Sent c (introduce s.network_id c.my_node s.local_port) false s in
      rw (early_check t s w.live w.unknown) (elim (Bool-cases (leb 3 s.strikes)) [
        | inl g ↦ inl (ground (arith, r.strikes, w.few))
        | inr g ↦ elim r.done [
          | inr e ↦ inl (ground (arith, r.strikes))
          | inl e ↦ inr (record {
            live = ground (arith, r.strikes, w.live);
            unknown = ground (arith, r.port, w.unknown);
            strikes = ground (arith, r.strikes, w.strikes);
            few = ground (arith, r.strikes);
          })
        ]
      ])

  Asks-end :
      (ts : List ℤ) (n : ℕ) (s : Session)
      → Asks n s
      → 4 ≤ n + length ts
      → is_some (check_all c ts s).done ≡ true
  unfolding check_all
  Asks-end [] n s w g = absurd (omega (arith, w.strikes, w.few))
  Asks-end (t ∷ ts) n s w g = elim (next-Asks t n s w) [
    | inl d ↦ ap (λ x. is_some x.done) (check_all_done ts (check_conn c t t s) d) ∙ d
    | inr v ↦ Asks-end ts (suc n) (check_conn c t t s) v (omega arith)
  ]

  -- Five checks in a row, each later than the one before by more than the time-out of a ping, with
  -- no packet between them, end a session whose strikes are within the bound, introduced or not.
  pub check_all-ends :
      (ts : List ℤ) (s : Session)
      → is_sound s ≡ true
      → spaced ts ≡ true
      → 5 ≤ length ts
      → is_some (check_all c ts s).done ≡ true
  unfolding check_all
  check_all-ends [] s a h g = absurd (omega arith)
  check_all-ends (t ∷ ts) s a h g = elim (Option-cases s.done) [
    | inr (r, d) ↦
        ap (λ x. is_some x.done) (check_all_done (t ∷ ts) s (ground arith)) ∙ ground arith
    | inl d ↦ elim (Bool-cases (is_introduced s)) [
      | inl i ↦ elim (first-Waits t s d i) [
        | inl e ↦ ap (λ x. is_some x.done) (check_all_done ts (check_conn c t t s) e) ∙ e
        | inr w ↦ Waits-end ts t 0 (check_conn c t t s) w h (omega arith)
      ]
      | inr i ↦
          Asks-end (t ∷ ts) 0 s
            (record { live = d; unknown = i; strikes = omega arith; few = ground arith })
            (omega arith)
    ]
  ]
