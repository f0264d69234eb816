-- ===== src/Network/Session.antt =====
-- Sessions with a peer (core/src/network/session.rs), with the handling of packets
-- (core/src/network/protocol.rs). A method takes the session and returns it last; the clock's
-- readings are arguments. What a session hands to the network and to the event loop is listed in
-- it. The counter of active synchronisations belongs to the jobs and is left out here.
pub mod Checks
pub mod Receive
pub mod Laws
pub mod Timeout
pub mod Steps
pub mod Jobs
use blockscape.Nodes.{Node, node_beq}
use blockscape.Network.Message.{
  Message, ByeReason, BlockHeader, introduce, ping, pong, find_nodes, node_list, new_transaction,
  new_block, broadcast, sync_blocks, query_data, chain_data, spot_chain_data, bye, data_error, exit,
  exit_permanent, timeout, abuse, DataRequestError, hashes_not_found, rate_exceeded,
  network_not_available, internal_error,
}
use blockscape.Network.Job.{NetworkJob, make_req, augment}
use blockscape.Base.{
  ℕ, zero, suc, ◌+◌, ◌%◌, ◌^◌, Bool, true, false, not, ◌||◌, Option, none, some, List, [], ◌∷◌,
  ◌++◌, Bin, length, ltb, nat_eq, list_eq, ◌==◌, if◌then◌else◌,
}
use blockscape.Base.Int.{ℤ, pos, ltb_ℤ, eqb_ℤ}
use blockscape.Base.Words.{add_i64, neg_i64}

pub record Packet : Type 0 where
  pub seq : ℕ
  pub msg : Message
  pub sig : Bin

-- `Time::diff`
unfoldable pub diff : ℤ → ℤ → ℤ
unfolding add_i64 neg_i64
diff a b = add_i64 b (neg_i64 a)

-- The constants of the protocol, and the port of a session that is not introduced.
abbrev pub ping_timeout : ℤ
ping_timeout = pos 3000

abbrev pub job_timeout : ℤ
job_timeout = pos 5000

abbrev pub timeout_tolerance : ℕ
timeout_tolerance = 3

abbrev pub max_abuses : ℕ
max_abuses = 3

abbrev pub node_response_size : ℕ
node_response_size = 8

abbrev pub no_port : ℕ
no_port = 255

-- What a session takes from its context: the node itself, signatures, the hash of a block header,
-- the weighted average of times, the receivers of broadcasts, and the peers of the shard.
pub record Context : Type 0 where
  pub my_node : Node
  pub sign : Message → Bin
  pub verify : Message → Bin → Node → Bool
  pub hash_header : BlockHeader → ℕ
  pub average : ℤ → ℤ → ℤ
  pub handle_broadcast : ℕ → ℕ → Bin → Bool
  pub peers : List Node

-- What a session has done outside of itself, from the first to the last.
pub data Effect : Type 0 where
  over_stream : Packet → Effect
  over_udp : ℕ → Packet → Effect
  spawned : Message → Effect

-- `sink` is the stream of the session, if it has one, as whether it takes a packet.
pub record Session : Type 0 where
  pub done : Option ByeReason
  pub network_id : ℕ
  pub remote_peer : Node
  pub remote_port : ℕ
  pub local_port : ℕ
  pub remote_addr : Bin
  pub sink : Option (Packet → Bool)
  pub established_since : ℤ
  pub latency : ℤ
  pub last_ping_send : Option ℤ
  pub current_job : Option (NetworkJob × ℕ × ℤ)
  pub current_seq : ℕ
  pub strikes : ℕ
  pub abuses : ℕ
  pub effects : List Effect

pub record NewSessionOptions : Type 0 where
  pub local_port : ℕ
  pub remote_peer : Node
  pub remote_addr : Bin
  pub network_id : ℕ
  pub sink : Option (Packet → Bool)

unfoldable pub new : NewSessionOptions → ℤ → Session
new opts now = record {
  done = none;
  network_id = opts.network_id;
  remote_peer = opts.remote_peer;
  remote_port = no_port;
  local_port = opts.local_port;
  remote_addr = opts.remote_addr;
  sink = opts.sink;
  established_since = now;
  latency = pos 0;
  last_ping_send = none;
  current_job = none;
  current_seq = 0;
  strikes = 0;
  abuses = 0;
  effects = [];
}

unfoldable pub is_introduced : Session → Bool
is_introduced s = not (s.remote_port == no_port)

unfoldable pub is_done : Session → Option ByeReason
is_done s = s.done

abbrev pub effect : Effect → Session → Session
effect e s = record s { effects = s.effects ++ e ∷ [] }

abbrev pub next_seq : Session → Session
next_seq s = record s { current_seq = (s.current_seq + 1) % 2 ^ 32 }

-- `send_packet` of a session without a stream.
abbrev pub send_udp : Packet → Session → Session
send_udp pl s = effect (over_udp s.remote_port pl) s

abbrev pub unsigned : ℕ → Message → Packet
unsigned seq msg = record { seq = seq; msg = msg; sig = [] }

-- `close` of a session without a stream.
abbrev pub close_udp : Session → Session
close_udp s = record (send_udp (unsigned s.current_seq (bye exit)) (next_seq s)) {
  done = some exit;
}

-- A stream that does not take a packet is dropped, and the session is closed.
unfoldable pub send_packet : Packet → Session → Session
send_packet pl s = elim s.sink [
  | none ↦ send_udp pl s
  | some takes ↦
      if takes pl then effect (over_stream pl) s else close_udp (record s { sink = none })
]

module _ (c : Context) where
  abbrev pub packet : ℕ → Message → Bool → Packet
  packet seq msg signed = record { seq = seq; msg = msg; sig = if signed then c.sign msg else [] }

  -- `send`; it returns the sequence number that the session had.
  unfoldable pub send : Message → Bool → Session → Session
  unfolding send_packet
  send msg signed s = send_packet (packet s.current_seq msg signed) (next_seq s)

  unfoldable pub send_reply : Message → ℕ → Bool → Session → Session
  unfolding send_packet
  send_reply msg seq signed s = send_packet (packet seq msg signed) s

  unfoldable pub send_introduce : Session → Session
  unfolding send
  send_introduce s = send (introduce s.network_id c.my_node s.local_port) true s

  unfoldable pub close : Session → Session
  unfolding send
  close s = record (send (bye exit) false s) { done = some exit }
