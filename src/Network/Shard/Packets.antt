-- ===== src/Network/Shard/Packets.antt =====
-- Routing a packet to a session (`process_packet` of core/src/network/shard.rs).
use blockscape.HashMap
use blockscape.HashMap.{HashMap}
use blockscape.Nodes.{Node}
use blockscape.Network.Message.{Message}
use blockscape.Network.Job.{NetworkJob, complete}
use blockscape.Network.Session.{Packet, Context, Session, send}
use blockscape.Network.Session.Checks.{handle_introduce}
use blockscape.Network.Session.Receive.{recv}
use blockscape.Network.Shard.{Sessions, ShardInfo, peer_id, assign_to}
use blockscape.Base.{
  ℕ, Bool, true, Option, none, some, List, [], ◌∷◌, Bin, nat_eq, list_eq, ◌==◌, if◌then◌else◌,
}
use blockscape.Base.Int.{ℤ}

-- What is outside of the shard: the networks of the node, the limit of new contacts, the order of
-- the sessions for a new job, and the clock.
pub record Outside : Type 0 where
  pub has_shard : ℕ → Bool
  pub limit : ℕ
  pub pulls : NetworkJob → List Bin
  pub now : ℤ

module _ (c : Context) (hash_pub_key : Bin → ℕ) where
  -- The address of the first session with a peer.
  abbrev pub address_of : ℕ → Sessions → Option Bin
  address_of id [] = none
  address_of id ((addr, s) ∷ sessions) =
      if peer_id c hash_pub_key s == id then some addr else address_of id sessions

  -- The session for an introduction: that at the address, or the one with the peer.
  abbrev pub route : Bin → Node → Sessions → Option Bin
  route addr node sessions =
      if HashMap.contains_key addr sessions
      then some addr
      else address_of (hash_pub_key node.key) sessions

  -- Every broadcast that waits is sent.
  abbrev pub drain : List Message → Session → Session
  drain [] s = s
  drain (msg ∷ msgs) s = drain msgs (send c msg true s)

  -- The session moves to the address of its peer.
  abbrev pub reroute : Packet → Bin → Bin → Session → ShardInfo → Option ShardInfo
  reroute p addr sa s sh = elim (handle_introduce c p addr s) [
    | none ↦ none
    | some met ↦
        let s' = drain sh.unsent_broadcasts met in
        some (record sh {
          sessions = HashMap.insert s'.remote_addr s' (HashMap.remove sa sh.sessions);
          unsent_broadcasts = [];
        })
  ]

  abbrev pub route_to : Packet → Bin → Option Bin → ShardInfo → Option ShardInfo
  route_to p addr none sh = some sh
  route_to p addr (some sa) sh = elim (HashMap.get sa sh.sessions) [
    | none ↦ none
    | some s ↦ reroute p addr sa s sh
  ]

  abbrev go_on : Outside → Option NetworkJob → Sessions → Sessions
  go_on out none sessions = sessions
  go_on out (some job) sessions = (assign_to c hash_pub_key (out.pulls job) job out.now sessions).1

  -- A job that the packet finishes may leave a new one. The counter of active synchronisations is
  -- passed along, with the nodes to contact.
  abbrev pub react :
      Outside → Option NetworkJob → Message → ℕ → ShardInfo → ShardInfo × List Node × ℕ
  react out none msg syncs sh = (sh, [], syncs)
  react out (some job) msg syncs sh =
      let (next, nodes, syncs') = complete c.hash_header out.has_shard out.limit job msg syncs in
      (record sh { sessions = go_on out next sh.sessions }, nodes, syncs')

  abbrev pub receive : Outside → Packet → Bin → ℕ → ShardInfo → Option (ShardInfo × List Node × ℕ)
  receive out p addr syncs sh = elim (HashMap.get addr sh.sessions) [
    | none ↦ some (sh, [], syncs)
    | some s ↦ elim (recv c p s) [
      | none ↦ none
      | some (job, s') ↦
          some (
            react out job p.msg syncs (record sh { sessions = HashMap.insert addr s' sh.sessions }))
    ]
  ]

  abbrev with_syncs : ℕ → Option ShardInfo → Option (ShardInfo × List Node × ℕ)
  with_syncs syncs none = none
  with_syncs syncs (some sh) = some (sh, [], syncs)

  -- `none` is a panic.
  unfoldable pub process_packet :
      Outside → Packet → Bin → ℕ → ShardInfo → Option (ShardInfo × List Node × ℕ)
  unfolding handle_introduce send recv complete assign_to
  process_packet out p addr syncs sh = elim p.msg [
    | Message.introduce network_id node port ↦
        with_syncs syncs (route_to p addr (route addr node sh.sessions) sh)
    | _ ↦ receive out p addr syncs sh
  ]
