-- ===== src/Network/Shard.antt =====
-- A shard of the network (core/src/network/shard.rs): its sessions with peers, the repository of
-- nodes, and the broadcasts that wait for a peer. A session stands under its address, a text of
-- bytes. Readings of the clock, random choices and resolved addresses are arguments; what a session
-- does outside is listed in it. Saving the repository and logging are left out.
pub mod Packets
pub mod Laws
pub mod Assigned
use blockscape.HashMap
use blockscape.HashMap.{HashMap}
use blockscape.Nodes
use blockscape.Nodes.{
  Node, NodeEndpoint, NodeRepository, Protocol, tcp, udp, get_hash_id, get_nodes, new_node,
}
use blockscape.Network.Message.{Message, ByeReason, exit_permanent, abuse, exit, timeout}
use blockscape.Network.Job
use blockscape.Network.Job.{NetworkJob, NetworkJobData, max_job_retries}
use blockscape.Network.Session.{
  Packet, Context, Session, is_introduced, is_done, send, send_introduce, close,
}
use blockscape.Network.Session
use blockscape.Network.Session.Checks.{check_conn, check_job, assign_job}
use blockscape.Base.{
  ℕ, zero, suc, ◌+◌, ◌-◌, ◌*◌, ◌%◌, ◌^◌, Bool, true, false, not, ◌&&◌, ◌||◌, Option, none, some,
  List, [], ◌∷◌, ◌++◌, map, Bin, length, ltb, leb, nat_eq, list_eq, ◌==◌, contains, if◌then◌else◌,
}
use blockscape.Base.Int.{ℤ}

pub data ShardMode : Type 0 where
  primary auxillery query_only : ShardMode

abbrev pub Sessions : Type 0
Sessions = HashMap Bin Session

pub record ShardInfo : Type 0 where
  pub network_id : ℕ
  pub port : ℕ
  pub mode : ShardMode
  pub sessions : Sessions
  pub peer_ids : List ℕ
  pub last_peer_idx : ℕ
  pub node_repo : NodeRepository
  pub unsent_broadcasts : List Message

unfoldable pub new : ℕ → ℕ → ShardMode → NodeRepository → ShardInfo
new network_id port mode repo = record {
  network_id = network_id;
  port = port;
  mode = mode;
  sessions = [];
  peer_ids = [];
  last_peer_idx = 0;
  node_repo = repo;
  unsent_broadcasts = [];
}

-- `HashSet::insert`
abbrev pub insert_id : ℕ → List ℕ → List ℕ
insert_id id ids = if contains ids id then ids else ids ++ id ∷ []

-- `peer.endpoint == …`
abbrev same_protocol : Protocol → Protocol → Bool
same_protocol tcp tcp = true
same_protocol udp udp = true
same_protocol _ _ = false

abbrev same_endpoint : NodeEndpoint → NodeEndpoint → Bool
same_endpoint a b = same_protocol a.protocol b.protocol && a.host == b.host && a.port == b.port

abbrev pub any_session : (Session → Bool) → Sessions → Bool
any_session p [] = false
any_session p ((addr, s) ∷ sessions) = p s || any_session p sessions

abbrev pub each_session : (Session → Session) → Sessions → Sessions
each_session f [] = []
each_session f ((addr, s) ∷ sessions) = (addr, f s) ∷ each_session f sessions

-- What `check_sessions` has found: the sessions, those that are done, the identities of the others,
-- the jobs to assign anew, and the repository.
pub record Sweep : Type 0 where
  pub checked : Sessions
  pub removed : List Bin
  pub ids : List ℕ
  pub jobs : List NetworkJob
  pub repo : NodeRepository

abbrev pub removes_node : ByeReason → Bool
removes_node exit_permanent = true
removes_node abuse = true
removes_node _ = false

abbrev pub remove_sessions : List Bin → Sessions → Sessions
remove_sessions [] sessions = sessions
remove_sessions (addr ∷ removed) sessions = remove_sessions removed (HashMap.remove addr sessions)

-- A job that failed is tried again up to a bound. The counter of tries wraps.
abbrev pub retry : Option NetworkJob → List NetworkJob → List NetworkJob
retry none jobs = jobs
retry (some j) jobs =
    let j' = record j { try = (j.try + 1) % 2 ^ 64 } in
    if ltb max_job_retries j'.try then jobs else jobs ++ j' ∷ []

module _ (c : Context) (hash_pub_key : Bin → ℕ) where
  abbrev pub peer_id : Session → ℕ
  peer_id s = hash_pub_key s.remote_peer.key

  -- The loop of `node_scan` over at most `left` nodes of the repository; `none` is a panic.
  abbrev pub scan : ℕ → ℕ → ℕ → List Node → ShardInfo → Option (List Node × ShardInfo)
  scan zero wanted attempts queue sh = some (queue, sh)
  scan (suc left) wanted attempts queue sh = elim (ltb (length sh.sessions + length queue) wanted) [
    | false ↦ some (queue, sh)
    | true ↦ elim (get_nodes sh.node_repo sh.last_peer_idx) [
      | none ↦ none
      | some peer ↦
          let id = hash_pub_key peer.key in
          let fresh = not (contains sh.peer_ids id) && not (id == hash_pub_key c.my_node.key) in
          let queue' = if fresh then queue ++ peer ∷ [] else queue in
          let sh' = record sh { last_peer_idx = (sh.last_peer_idx + 1) % 2 ^ 64 } in
          elim (leb (wanted * 3) (attempts + 1)) [
            | true ↦ some (queue', sh')
            | false ↦ scan left wanted (attempts + 1) queue' sh'
          ]
    ]
  ]

  -- The random session at `asked` is asked for nodes, if there is one.
  abbrev pub ask_for_nodes : Bin → ℤ → ShardInfo → ShardInfo
  ask_for_nodes asked now sh = elim (HashMap.get asked sh.sessions) [
    | none ↦ sh
    | some s ↦
        let job : NetworkJob = record {
          try = 0;
          job_data = NetworkJobData.find_nodes sh.network_id;
        } in
        record sh { sessions = HashMap.insert asked (assign_job c job now s).1 sh.sessions }
  ]

  -- The peers to which `node_scan` opens sessions, and the number of sessions that it returns.
  unfoldable pub node_scan : ℕ → Bin → ℤ → ShardInfo → Option (List Node × ℕ × ShardInfo)
  unfolding assign_job get_nodes
  node_scan wanted asked now sh =
      if leb wanted (length sh.sessions)
      then some ([], length sh.sessions, sh)
      else elim (scan (length sh.node_repo.sorted_nodes) wanted 0 [] (ask_for_nodes asked now sh)) [
        | none ↦ none
        | some (queue, sh') ↦ some (queue, length sh'.sessions, sh')
      ]

  -- A session after `check_conn` and `check_job`, with the job that failed.
  abbrev pub note_done : Option ByeReason → Session → Bin → Sweep → Sweep
  note_done none s addr w = record w { ids = insert_id (peer_id s) w.ids }
  note_done (some reason) s addr w = record w {
    removed = w.removed ++ addr ∷ [];
    repo = if removes_node reason then Nodes.remove w.repo (peer_id s) else w.repo;
  }

  abbrev pub note_node : Session → Sweep → Sweep
  note_node s w = elim (Nodes.get w.repo (peer_id s)) [
    | some n ↦ w
    | none ↦
        if is_introduced s
        then record w { repo = new_node hash_pub_key w.repo s.remote_peer }
        else w
  ]

  abbrev pub note : Bin → Option NetworkJob → Session → Sweep → Sweep
  note addr job s w = note_node s (
      note_done (is_done s) s addr
        (record w { checked = w.checked ++ (addr, s) ∷ []; jobs = retry job w.jobs }))

  -- The clock is read for the check, for the ping and for the job.
  abbrev pub check_one : ℤ × ℤ × ℤ → Bin → Session → Sweep → Sweep
  check_one time addr s w =
      let (job, s') = check_job c time.2 (check_conn c time.0 time.1 s) in note addr job s' w

  abbrev pub sweep : (Bin → ℤ × ℤ × ℤ) → Sessions → Sweep → Sweep
  sweep clock [] w = w
  sweep clock ((addr, s) ∷ sessions) w = sweep clock sessions (check_one (clock addr) addr s w)

  -- `assign_job`, to the sessions in the order to which they are shuffled.
  unfoldable pub assign_to : List Bin → NetworkJob → ℤ → Sessions → Bool × Sessions
  unfolding assign_job
  assign_to [] job now sessions = (false, sessions)
  assign_to (addr ∷ pulls) job now sessions = elim (HashMap.get addr sessions) [
    | none ↦ assign_to pulls job now sessions
    | some s ↦
        let (taken, s') = assign_job c job now s in
        let sessions' = HashMap.insert addr s' sessions in
        elim taken [ true ↦ (true, sessions') | false ↦ assign_to pulls job now sessions' ]
  ]

  abbrev pub assign_all : (NetworkJob → List Bin) → List NetworkJob → ℤ → Sessions → Sessions
  assign_all pulls [] now sessions = sessions
  assign_all pulls (j ∷ jobs) now sessions =
      assign_all pulls jobs now (assign_to (pulls j) j now sessions).1

  abbrev pub swept : (Bin → ℤ × ℤ × ℤ) → ShardInfo → Sweep
  swept clock sh =
      sweep clock sh.sessions
        (record { checked = []; removed = []; ids = []; jobs = []; repo = sh.node_repo })

  unfoldable pub check_sessions :
      (Bin → ℤ × ℤ × ℤ) → (NetworkJob → List Bin) → ℤ → ShardInfo → ShardInfo
  unfolding is_introduced is_done check_conn check_job new_node Nodes.get Nodes.remove assign_to
  check_sessions clock pulls now sh =
      let w = swept clock sh in
      record sh {
        sessions = assign_all pulls w.jobs now (remove_sessions w.removed w.checked);
        peer_ids = w.ids;
        node_repo = w.repo;
      }

  -- The checks of `open_session` before the address is resolved.
  unfoldable pub may_open : Node → ShardInfo → Bool
  may_open peer sh =
      not (any_session (λ s. same_endpoint s.remote_peer.endpoint peer.endpoint) sh.sessions)
      && (hash_pub_key peer.key == 0
          || not (any_session (λ s. peer_id s == hash_pub_key peer.key) sh.sessions))

  abbrev add_session : Bin → Session → ShardInfo → ShardInfo
  add_session addr s sh = record sh {
    peer_ids = insert_id (peer_id s) sh.peer_ids;
    sessions = HashMap.insert addr s sh.sessions;
  }

  abbrev fresh_session : Node → Bin → Option (Packet → Bool) → ℤ → ShardInfo → Session
  fresh_session peer addr strm now sh =
      Session.new
        (record {
          local_port = sh.port;
          remote_peer = peer;
          remote_addr = addr;
          network_id = sh.network_id;
          sink = strm;
        })
        now

  -- The rest of `open_session` when no stream has to be opened.
  unfoldable pub open_now : Node → Bin → Option (Packet → Bool) → Bool → ℤ → ShardInfo → ShardInfo
  unfolding send_introduce Session.new
  open_now peer addr strm introduce now sh =
      let s = fresh_session peer addr strm now sh in
      add_session addr (if introduce then send_introduce c s else s) sh

  -- The rest of `open_session` when a stream has been opened; `none` if the address has a session.
  unfoldable pub open_stream : Node → Bin → (Packet → Bool) → ℤ → ShardInfo → Option ShardInfo
  unfolding send_introduce Session.new
  open_stream peer addr strm now sh =
      if HashMap.contains_key addr sh.sessions
      then none
      else some
          (add_session addr (send_introduce c (fresh_session peer addr (some strm) now sh)) sh)

  -- `close`
  unfoldable pub close_all : ShardInfo → ShardInfo
  unfolding close
  close_all sh = record sh { sessions = each_session (close c) sh.sessions }

  abbrev flood : Message → Session → Session
  flood msg s = elim (is_done s) [
    | some reason ↦ s
    | none ↦ if is_introduced s then send c msg true s else s
  ]

  unfoldable pub reliable_flood : Message → ShardInfo → ShardInfo
  unfolding send is_done is_introduced
  reliable_flood msg sh = elim sh.sessions [
    | [] ↦ record sh { unsent_broadcasts = sh.unsent_broadcasts ++ msg ∷ [] }
    | _ ↦ record sh { sessions = each_session (flood msg) sh.sessions }
  ]

abbrev pub count_introduced : Sessions → ℕ
count_introduced [] = 0
count_introduced ((addr, s) ∷ sessions) =
    let rest = count_introduced sessions in if is_introduced s then suc rest else rest

unfoldable pub get_session_count : ShardInfo → ℕ
unfolding is_introduced
get_session_count sh = count_introduced sh.sessions

-- The loop from the index `i`, `left` times; `none` is a panic.
unfoldable pub nodes_from : NodeRepository → ℕ → ℕ → ℕ → Option (List Node)
unfolding get_nodes
nodes_from repo skip i zero = some []
nodes_from repo skip i (suc left) = elim (get_nodes repo (skip + i)) [
  | none ↦ none
  | some n ↦ elim (nodes_from repo skip (i + 1) left) [ none ↦ none | some ns ↦ some (n ∷ ns) ]
]

abbrev min_of : ℕ → ℕ → ℕ
min_of a b = if leb a b then a else b

unfoldable pub get_nodes_from_repo : ℕ → ℕ → ShardInfo → Option (List Node)
unfolding nodes_from
get_nodes_from_repo skip count sh =
    nodes_from sh.node_repo skip skip
      (min_of (length sh.node_repo.sorted_nodes) (skip + count) - skip)
