-- ===== src/Network/Shard/Assigned.antt =====
-- The sessions of a shard after `check_sessions` (core/src/network/shard.rs).
use mathlib.Core.Path.{subst}
use blockscape.HashMap
use blockscape.HashMap.{HashMap}
use blockscape.Network.Message.{exit}
use blockscape.Network.Job.{NetworkJob, make_req}
use blockscape.Network.Session.{
  Context, Session, Packet, is_introduced, send_packet, next_seq, packet, send,
}
use blockscape.Network.Session.Checks.{assign_job, take_job}
use blockscape.Network.Session.Laws.{is_some}
use blockscape.Network.Shard.{Sessions, ShardInfo, assign_to, assign_all, check_sessions, swept}
use blockscape.Network.Shard.Laws.{AllLive, swept-AllLive}
use blockscape.Base.{
  ℕ, ◌≡◌, ◌⊎◌, inl, inr, refl, sym, if_elim, true, false, none, some, List, [], ◌∷◌, Bin, list_eq,
  nat_eq, ◌==◌, Option-cases, Bool-cases, if◌then◌else◌, arith,
}
use blockscape.Base.Int.{ℤ}

-- A session is not done, or its stream has not taken a packet: the stream is dropped, and the reason
-- is an ordinary exit.
abbrev IsOpen : Session → Type 0
IsOpen s = (s.done ≡ none) ⊎ ((s.done ≡ some exit) × (s.sink ≡ none))

-- A session is not done, or it has a job, and its stream has not taken the packet that asks for one.
abbrev pub IsLeft : Session → Type 0
IsLeft s =
    (s.done ≡ none) ⊎ ((s.done ≡ some exit) × (s.sink ≡ none) × (is_some s.current_job ≡ true))

abbrev pub AllLeft : Sessions → Type 0
AllLeft [] = Unit {0}
AllLeft ((addr, s) ∷ sessions) = IsLeft s × AllLeft sessions

IsLeft-IsOpen : (s : Session) → IsLeft s → IsOpen s
IsLeft-IsOpen s h = elim h [ inl live ↦ inl live | inr over ↦ inr (over.0, over.1) ]

IsOpen-IsLeft : (s : Session) → is_some s.current_job ≡ true → IsOpen s → IsLeft s
IsOpen-IsLeft s j h = elim h [ inl live ↦ inl live | inr over ↦ inr (over.0, over.1, j) ]

send_packet-IsOpen : (pl : Packet) (s : Session) → IsOpen s → IsOpen (send_packet pl s)
unfolding send_packet
send_packet-IsOpen pl s h = elim (Option-cases s.sink) [
  | inl g ↦ rw g (elim h [ inl live ↦ inl live | inr over ↦ inr (over.0, refl) ])
  | inr (takes, g) ↦ elim (Bool-cases (takes pl)) [
    | inl t ↦
        let apart : s.sink ≡ none → s.done ≡ none = λ e. absurd (cc) in
        let live : s.done ≡ none = elim h [ inl live ↦ live | inr over ↦ apart over.1 ] in
        rw g (rw t (inl live))
    | inr t ↦ rw g (rw t (inr (refl, refl)))
  ]
]

module _ (c : Context) (hash_pub_key : Bin → ℕ) where
  take_job-IsLeft :
      (job : NetworkJob) (seq : ℕ) (now : ℤ) (s : Session)
      → IsOpen s
      → IsLeft (take_job c job seq now s).1
  take_job-IsLeft job seq now s h = elim (Option-cases s.current_job) [
    | inl g ↦ rw g (IsOpen-IsLeft (record s { current_job = some (job, seq, now) }) refl h)
    | inr (j, g) ↦ rw g (elim h [ inl live ↦ inl live | inr over ↦ inr (over.0, over.1, refl) ])
  ]

  assign_job-IsLeft :
      (job : NetworkJob) (now : ℤ) (s : Session) → IsLeft s → IsLeft (assign_job c job now s).1
  unfolding assign_job send
  assign_job-IsLeft job now s h =
      let pl = packet c s.current_seq (make_req c.hash_header job) false in
      elim (Bool-cases (is_introduced s)) [
        | inl g ↦ rw g (
            take_job-IsLeft job s.current_seq now (send_packet pl (next_seq s))
              (send_packet-IsOpen pl (next_seq s) (IsLeft-IsOpen s h)))
        | inr g ↦ rw g h
      ]

  get-AllLeft :
      (addr : Bin) (s : Session) (sessions : Sessions)
      → HashMap.get addr sessions ≡ some s
      → AllLeft sessions
      → IsLeft s
  get-AllLeft addr s [] g h = absurd (cc)
  get-AllLeft addr s ((a, t) ∷ sessions) g h = elim (Bool-cases (addr == a)) [
    | inl e ↦ let same : t ≡ s = ground (arith, e, g) in subst IsLeft same h.0
    | inr e ↦ get-AllLeft addr s sessions (ground (arith, e, g)) h.1
  ]

  insert-AllLeft :
      (addr : Bin) (s : Session) (sessions : Sessions)
      → IsLeft s
      → AllLeft sessions
      → AllLeft (HashMap.insert addr s sessions)
  insert-AllLeft addr s [] g h = (g, tt)
  insert-AllLeft addr s ((a, t) ∷ sessions) g h = elim (Bool-cases (addr == a)) [
    | inl e ↦ rw e (g, h.1)
    | inr e ↦ rw e (h.0, insert-AllLeft addr s sessions g h.1)
  ]

  assign_to-none :
      (addr : Bin) (pulls : List Bin) (job : NetworkJob) (now : ℤ) (sessions : Sessions)
      → HashMap.get addr sessions ≡ none
      → assign_to c hash_pub_key (addr ∷ pulls) job now sessions
        ≡ assign_to c hash_pub_key pulls job now sessions
  unfolding assign_to
  assign_to-none addr pulls job now sessions g = rw (assign_to, g) refl

  assign_to-some :
      (addr : Bin) (pulls : List Bin) (job : NetworkJob) (now : ℤ) (sessions : Sessions)
      (s : Session)
      → HashMap.get addr sessions ≡ some s
      → let sessions' = HashMap.insert addr (assign_job c job now s).1 sessions in
        assign_to c hash_pub_key (addr ∷ pulls) job now sessions ≡ (
          if (assign_job c job now s).0
          then (true, sessions')
          else assign_to c hash_pub_key pulls job now sessions')
  unfolding assign_to
  assign_to-some addr pulls job now sessions s g = elim (Bool-cases (assign_job c job now s).0) [
    | inl t ↦ rw (assign_to, g, t) refl
    | inr t ↦ rw (assign_to, g, t) refl
  ]

  assign_to-AllLeft :
      (pulls : List Bin) (job : NetworkJob) (now : ℤ) (sessions : Sessions)
      → AllLeft sessions
      → AllLeft (assign_to c hash_pub_key pulls job now sessions).1
  unfolding assign_to
  assign_to-AllLeft [] job now sessions h = h
  assign_to-AllLeft (addr ∷ pulls) job now sessions h =
      elim (Option-cases (HashMap.get addr sessions)) [
        | inl g ↦
            subst (λ r. AllLeft r.1) (sym (assign_to-none addr pulls job now sessions g))
              (assign_to-AllLeft pulls job now sessions h)
        | inr (s, g) ↦
            let sessions' = HashMap.insert addr (assign_job c job now s).1 sessions in
            let next : AllLeft sessions' =
              insert-AllLeft addr (assign_job c job now s).1 sessions
                (assign_job-IsLeft job now s (get-AllLeft addr s sessions g h)) h in
            subst (λ r. AllLeft r.1) (sym (assign_to-some addr pulls job now sessions s g))
              (if_elim (λ r. AllLeft r.1) (assign_job c job now s).0 (true, sessions')
                (assign_to c hash_pub_key pulls job now sessions') (λ t. next)
                λ t. assign_to-AllLeft pulls job now sessions' next)
      ]

  assign_all-AllLeft :
      (pulls : NetworkJob → List Bin) (jobs : List NetworkJob) (now : ℤ) (sessions : Sessions)
      → AllLeft sessions
      → AllLeft (assign_all c hash_pub_key pulls jobs now sessions)
  assign_all-AllLeft pulls [] now sessions h = h
  assign_all-AllLeft pulls (j ∷ jobs) now sessions h =
      assign_all-AllLeft pulls jobs now (assign_to c hash_pub_key (pulls j) j now sessions).1
        (assign_to-AllLeft (pulls j) j now sessions h)

  AllLive-AllLeft : (sessions : Sessions) → AllLive c hash_pub_key sessions → AllLeft sessions
  AllLive-AllLeft [] h = tt
  AllLive-AllLeft ((addr, s) ∷ sessions) h = (inl h.0, AllLive-AllLeft sessions h.1)

  -- After a check of its sessions, with the jobs that failed assigned anew, a shard has only
  -- sessions that are not done, and such that have a job and whose stream has not taken the packet
  -- that asks for one; these are done by an ordinary exit.
  pub check_sessions-AllLeft :
      (clock : Bin → ℤ × ℤ × ℤ) (pulls : NetworkJob → List Bin) (now : ℤ) (sh : ShardInfo)
      → AllLeft (check_sessions c hash_pub_key clock pulls now sh).sessions
  unfolding check_sessions
  check_sessions-AllLeft clock pulls now sh =
      assign_all-AllLeft pulls (swept c hash_pub_key clock sh).jobs now _
        (AllLive-AllLeft _ (swept-AllLive c hash_pub_key clock sh))
