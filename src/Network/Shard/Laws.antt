-- ===== src/Network/Shard/Laws.antt =====
-- What the check of the sessions of a shard leaves.
use blockscape.HashMap
use blockscape.HashMap.{HashMap, get-insert, get-remove}
use blockscape.Nodes
use blockscape.Nodes.{local_node, get_hash_id, new_node, apply}
use blockscape.Network.Message.{abuse, ByeReason}
use blockscape.Network.Job.{NetworkJob}
use blockscape.Network.Session.{diff, job_timeout, Context, Session, is_introduced, is_done}
use blockscape.Network.Session.Checks.{check_conn, check_job}
use blockscape.Network.Shard.{
  Sessions, ShardInfo, Sweep, peer_id, note_done, note_node, note, check_one, sweep, swept, retry,
  remove_sessions,
}
use blockscape.Base.{
  ℕ, ◌≡◌, ◌⊎◌, inl, inr, refl, sym, ap, ◌∙◌, true, Option, none, some, List, [], ◌∷◌, ◌++◌, Bin,
  contains, contains-append, beq_refl, list_eq, nat_eq, ◌==◌, arith, nat_beq_iff, Option-cases,
  Bool-cases,
}
use blockscape.Base.Int.{ℤ, ltb_ℤ}
use mathlib.Core.Path.{subst}
use mathlib.Core.List.{append-nil}

module _ (c : Context) (hash_pub_key : Bin → ℕ) where
  -- A node that is not in the repository is added by `new_node`.
  get-new_node :
      (r : Nodes.NodeRepository) (node : Nodes.Node)
      → Nodes.get r (hash_pub_key node.key) ≡ none
      → Nodes.get (new_node hash_pub_key r node) (hash_pub_key node.key) ≡ some node
  unfolding Nodes.get new_node get_hash_id local_node apply
  get-new_node r node h = ground (
    arith,
    Option-cases (HashMap.get (hash_pub_key node.key) r.available_nodes),
    get-insert (hash_pub_key node.key) (hash_pub_key node.key) (record { node = node; score = 0 })
        r.available_nodes,
    nat_beq_iff (hash_pub_key node.key) (hash_pub_key node.key),
  )

  get-remove_node : (r : Nodes.NodeRepository) (k : ℕ) → Nodes.get (Nodes.remove r k) k ≡ none
  unfolding Nodes.get Nodes.remove
  get-remove_node r k = ground (
    arith,
    Option-cases (HashMap.get k r.available_nodes),
    get-remove k k r.available_nodes,
    nat_beq_iff k k,
  )

  get-note_node :
      (s : Session) (w : Sweep)
      → Nodes.get w.repo (peer_id c hash_pub_key s) ≡ none
      → is_introduced s ≡ true
      → Nodes.get (note_node c hash_pub_key s w).repo (peer_id c hash_pub_key s)
        ≡ some s.remote_peer
  get-note_node s w h met = rw (h, note_node) (rw met (get-new_node w.repo s.remote_peer h))

  note-abuse :
      (addr : Bin) (job : Option NetworkJob) (s : Session) (w : Sweep)
      → s.done ≡ some abuse
      → is_introduced s ≡ true
      → Nodes.get (note c hash_pub_key addr job s w).repo (peer_id c hash_pub_key s)
        ≡ some s.remote_peer
  unfolding is_done
  note-abuse addr job s w ended met =
      let w' : Sweep = record w {
        checked = w.checked ++ (addr, s) ∷ [];
        jobs = retry job w.jobs;
      } in
      get-note_node s (note_done c hash_pub_key s.done s addr w')
        (rw ended (get-remove_node w.repo (peer_id c hash_pub_key s))) met

  -- The checks leave a session that is done as it is, but for its job.
  check_job-done :
      (time : ℤ) (s : Session)
      → (job : Option (NetworkJob × ℕ × ℤ)) × ((check_job c time s).1
          ≡ record s { current_job = job })
  unfolding check_job
  check_job-done time s = elim (Option-cases s.current_job) [
    | inl e ↦ (none, ground arith)
    | inr (j, e) ↦ elim (Bool-cases (ltb_ℤ job_timeout (diff j.2 time))) [
      | inl late ↦ (none, ground arith)
      | inr on_time ↦ (some j, ground arith)
    ]
  ]

  check_conn-done : (now lps : ℤ) (s : Session) → s.done ≡ some abuse → check_conn c now lps s ≡ s
  unfolding check_conn
  check_conn-done now lps s ended = rw ended refl

  -- A session that has ended for abuse, after an introduction, is checked: its peer, which is taken
  -- out of the repository for that, is in the repository afterwards.
  pub check_one-abuse :
      (time : ℤ × ℤ × ℤ) (addr : Bin) (s : Session) (w : Sweep)
      → s.done ≡ some abuse
      → is_introduced s ≡ true
      → Nodes.get (check_one c hash_pub_key time addr s w).repo (peer_id c hash_pub_key s)
        ≡ some s.remote_peer
  unfolding is_introduced
  check_one-abuse time addr s w ended met =
      let (job, e) = check_job-done time.2 s in
      let kept : record s { current_job = job }
          ≡ (check_job c time.2 (check_conn c time.0 time.1 s)).1 =
        sym (ap (λ u. (check_job c time.2 u).1) (check_conn-done time.0 time.1 s ended) ∙ e) in
      subst
        (λ u.
          Nodes.get
            (note c hash_pub_key addr (check_job c time.2 (check_conn c time.0 time.1 s)).0 u
              w).repo
            (peer_id c hash_pub_key s)
          ≡ some s.remote_peer)
        kept
        (note-abuse addr (check_job c time.2 (check_conn c time.0 time.1 s)).0
          (record s { current_job = job }) w ended met)

  -- Every session is live, or its address is to be removed.
  abbrev Marked : List Bin → Sessions → Type 0
  Marked removed [] = Unit {0}
  Marked removed ((addr, s) ∷ sessions) =
      ((s.done ≡ none) ⊎ (contains removed addr ≡ true)) × Marked removed sessions

  abbrev pub AllLive : Sessions → Type 0
  AllLive [] = Unit {0}
  AllLive ((addr, s) ∷ sessions) = (s.done ≡ none) × AllLive sessions

  Marked-append :
      (removed more : List Bin) (xs ys : Sessions)
      → Marked removed xs
      → Marked (removed ++ more) ys
      → Marked (removed ++ more) (xs ++ ys)
  Marked-append removed more [] ys h k = k
  Marked-append removed more ((addr, s) ∷ xs) ys h k = (
    elim h.0 [
      | inl live ↦ inl live
      | inr listed ↦ inr (ground (arith, contains-append removed more addr))
    ],
    Marked-append removed more xs ys h.1 k,
  )

  note_node_keeps :
      (s : Session) (w : Sweep)
      → ((note_node c hash_pub_key s w).checked ≡ w.checked)
        × ((note_node c hash_pub_key s w).removed ≡ w.removed)
  note_node_keeps s w = elim (Option-cases (Nodes.get w.repo (peer_id c hash_pub_key s))) [
    | inl h ↦ elim (Bool-cases (is_introduced s)) [
      | inl met ↦ (rw (h, note_node) (rw met refl), rw (h, note_node) (rw met refl))
      | inr not_met ↦ (rw (h, note_node) (rw not_met refl), rw (h, note_node) (rw not_met refl))
    ]
    | inr (n, h) ↦ (rw (h, note_node) refl, rw (h, note_node) refl)
  ]

  note_done-Marked :
      (d : Option ByeReason) (addr : Bin) (s : Session) (w : Sweep) (jobs : List NetworkJob)
      → d ≡ s.done
      → Marked w.removed w.checked
      → Marked
          (note_done c hash_pub_key d s addr
            (record w { checked = w.checked ++ (addr, s) ∷ []; jobs = jobs })).removed
          (note_done c hash_pub_key d s addr
            (record w { checked = w.checked ++ (addr, s) ∷ []; jobs = jobs })).checked
  note_done-Marked none addr s w jobs e h =
      subst (λ removed. Marked removed (w.checked ++ (addr, s) ∷ [])) (append-nil w.removed)
        (Marked-append w.removed [] w.checked ((addr, s) ∷ []) h (inl (sym e), tt))
  note_done-Marked (some reason) addr s w jobs e h =
      let listed : contains (w.removed ++ addr ∷ []) addr ≡ true =
        ground (arith, contains-append w.removed (addr ∷ []) addr, beq_refl addr) in
      Marked-append w.removed (addr ∷ []) w.checked ((addr, s) ∷ []) h (inr listed, tt)

  note-Marked :
      (addr : Bin) (job : Option NetworkJob) (s : Session) (w : Sweep)
      → Marked w.removed w.checked
      → Marked (note c hash_pub_key addr job s w).removed (note c hash_pub_key addr job s w).checked
  unfolding is_done
  note-Marked addr job s w h =
      let w' : Sweep = record w {
        checked = w.checked ++ (addr, s) ∷ [];
        jobs = retry job w.jobs;
      } in
      let w'' = note_done c hash_pub_key (is_done s) s addr w' in
      let marked : Marked w''.removed w''.checked =
        note_done-Marked s.done addr s w (retry job w.jobs) refl h in
      let (same, kept) = note_node_keeps s w'' in rw same (rw kept marked)

  sweep-Marked :
      (clock : Bin → ℤ × ℤ × ℤ) (sessions : Sessions) (w : Sweep)
      → Marked w.removed w.checked
      → Marked
          (sweep c hash_pub_key clock sessions w).removed
          (sweep c hash_pub_key clock sessions w).checked
  sweep-Marked clock [] w h = h
  sweep-Marked clock ((addr, s) ∷ sessions) w h =
      let time = clock addr in
      let (job, s') = check_job c time.2 (check_conn c time.0 time.1 s) in
      sweep-Marked clock sessions (note c hash_pub_key addr job s' w) (note-Marked addr job s' w h)

  remove-Marked :
      (addr : Bin) (removed : List Bin) (sessions : Sessions)
      → Marked (addr ∷ removed) sessions
      → Marked removed (HashMap.remove addr sessions)
  remove-Marked addr removed [] h = tt
  remove-Marked addr removed ((a, s) ∷ sessions) h = elim (Bool-cases (addr == a)) [
    | inl here ↦ rw here (remove-Marked addr removed sessions h.1)
    | inr other ↦ rw other (
      elim h.0 [ inl live ↦ inl live | inr listed ↦ inr (ground arith) ],
      remove-Marked addr removed sessions h.1,
    )
  ]

  Marked-AllLive : (sessions : Sessions) → Marked [] sessions → AllLive sessions
  Marked-AllLive [] h = tt
  Marked-AllLive ((addr, s) ∷ sessions) h =
      (elim h.0 [ inl live ↦ live | inr listed ↦ cc ], Marked-AllLive sessions h.1)

  remove_sessions-AllLive :
      (removed : List Bin) (sessions : Sessions)
      → Marked removed sessions
      → AllLive (remove_sessions removed sessions)
  remove_sessions-AllLive [] sessions h = Marked-AllLive sessions h
  remove_sessions-AllLive (addr ∷ removed) sessions h =
      remove_sessions-AllLive removed (HashMap.remove addr sessions)
        (remove-Marked addr removed sessions h)

  -- After the sessions have been checked and those to be removed are removed, all that are left are
  -- not done.
  pub swept-AllLive :
      (clock : Bin → ℤ × ℤ × ℤ) (sh : ShardInfo)
      → AllLive (
          remove_sessions
            (swept c hash_pub_key clock sh).removed
            (swept c hash_pub_key clock sh).checked)
  swept-AllLive clock sh =
      remove_sessions-AllLive (swept c hash_pub_key clock sh).removed
        (swept c hash_pub_key clock sh).checked (sweep-Marked clock sh.sessions _ tt)
