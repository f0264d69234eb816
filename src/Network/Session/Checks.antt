-- ===== src/Network/Session/Checks.antt =====
-- The methods of a session (core/src/network/session.rs): introductions, pings and time-outs, jobs
-- and abuse.
use blockscape.Nodes.{Node}
use blockscape.Network.Message.{Message, introduce, ping, bye, exit_permanent, timeout, abuse}
use blockscape.Network.Job.{NetworkJob, make_req, augment}
use blockscape.Base.{
  ℕ, ◌+◌, ◌%◌, ◌^◌, Bool, true, false, not, ◌||◌, Option, none, some, Bin, length, ltb, nat_eq,
  list_eq, ◌==◌, if◌then◌else◌,
}
use blockscape.Base.Int.{ℤ, ltb_ℤ, eqb_ℤ}
use blockscape.Network.Session.{
  Packet, Context, Session, diff, ping_timeout, job_timeout, timeout_tolerance, max_abuses, no_port,
  is_introduced, send, send_introduce,
}

module _ (c : Context) where
  unfoldable pub check_sig : Packet → Node → Bool
  check_sig p node = c.verify p.msg p.sig node

  -- The checks of the key of a node that introduces itself.
  abbrev pub check_key : Node → Session → Session
  check_key node s =
      if not (length node.key == length c.my_node.key) || node.key == c.my_node.key
      then record s { done = some exit_permanent }
      else s

  abbrev pub meet : Node → ℕ → Session → Session
  meet node port s =
      check_key node (record s { remote_peer = node; remote_port = port; strikes = 0 })

  -- `handle_introduce`; a packet of another kind is a panic.
  abbrev pub introduced_by : Packet → Bin → Node → ℕ → Session → Session
  introduced_by p new_addr node port s =
      if port == no_port
      then s
      else if is_introduced s
      then (if check_sig p s.remote_peer
          then meet node port (record s { remote_addr = new_addr })
          else s)
      else send_introduce c (meet node port s)

  -- The node and the port of an introduction.
  abbrev pub introduction : Message → Option (Node × ℕ)
  introduction (introduce network_id node port) = some (node, port)
  introduction _ = none

  unfoldable pub handle_introduce : Packet → Bin → Session → Option Session
  unfolding is_introduced check_sig send_introduce
  handle_introduce p new_addr s = elim (introduction p.msg) [
    | none ↦ none
    | some i ↦ some (introduced_by p new_addr i.0 i.1 s)
  ]

  abbrev pub average_latency : ℤ → ℤ → Session → Session
  average_latency lps time s =
      if eqb_ℤ lps time then record s { latency = c.average s.latency (diff lps time) } else s

  unfoldable pub recv_ping : ℤ → Session → Session
  unfolding diff
  recv_ping time s = elim s.last_ping_send [
    | none ↦ s
    | some lps ↦ record (average_latency lps time s) { last_ping_send = none; strikes = 0 }
  ]

  abbrev pub check_strikes : Session → Session
  check_strikes s = if ltb timeout_tolerance s.strikes then record s { done = some timeout } else s

  -- A strike when the last ping is out for too long.
  abbrev pub strike_late : ℤ → Session → Session
  strike_late now s = elim s.last_ping_send [
    | none ↦ s
    | some lps ↦
        if ltb_ℤ ping_timeout (diff lps now)
        then record s { strikes = (s.strikes + 1) % 2 ^ 32 }
        else s
  ]

  abbrev pub send_ping : ℤ → Session → Session
  send_ping lps s = record (send c (ping lps) false s) { last_ping_send = some lps }

  abbrev pub ping_or_end : ℤ → Session → Session
  ping_or_end lps s =
      if ltb timeout_tolerance s.strikes then record s { done = some timeout } else send_ping lps s

  abbrev pub introduce_again : Session → Session
  introduce_again s =
      let sent = send c (introduce s.network_id c.my_node s.local_port) false s in
      check_strikes (record sent { strikes = (sent.strikes + 1) % 2 ^ 32 })

  abbrev pub check_live : Bool → ℤ → ℤ → Session → Session
  check_live true now lps s = ping_or_end lps (strike_late now s)
  check_live false now lps s = introduce_again s

  -- `check_conn`, which reads the clock for the check and again for the ping.
  unfoldable pub check_conn : ℤ → ℤ → Session → Session
  unfolding is_introduced diff send
  check_conn now lps s = elim s.done [
    | some reason ↦ s
    | none ↦ check_live (is_introduced s) now lps s
  ]

  unfoldable pub check_job : ℤ → Session → Option NetworkJob × Session
  unfolding diff
  check_job now s = elim s.current_job [
    | none ↦ (none, s)
    | some j ↦
        if ltb_ℤ job_timeout (diff j.2 now)
        then (some j.0, record s { current_job = none })
        else (none, s)
  ]

  -- The rest of `assign_job` when the request has been sent.
  abbrev pub take_job : NetworkJob → ℕ → ℤ → Session → Bool × Session
  take_job job seq now s = elim s.current_job [
    | some j ↦ (false, s)
    | none ↦ (true, record s { current_job = some (job, seq, now) })
  ]

  unfoldable pub assign_job : NetworkJob → ℤ → Session → Bool × Session
  unfolding is_introduced send make_req
  assign_job job now s =
      if not (is_introduced s)
      then (false, s)
      else take_job job s.current_seq now (send c (make_req c.hash_header job) false s)

  unfoldable pub update_job : NetworkJob → Session → Bool × Session
  unfolding augment
  update_job job s = elim s.current_job [
    | none ↦ (false, s)
    | some j ↦
        let (j', duplicate) = augment c.hash_header j.0 job in
        (duplicate, record s { current_job = some (j', j.1, j.2) })
  ]

  unfoldable pub mark_abuse : Session → Session
  unfolding send
  mark_abuse s =
      let marked = record s { abuses = (s.abuses + 1) % 2 ^ 32 } in
      if ltb max_abuses marked.abuses
      then record (send c (bye abuse) false marked) { done = some abuse }
      else marked
