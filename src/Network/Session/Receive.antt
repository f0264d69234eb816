-- ===== src/Network/Session/Receive.antt =====
-- Receiving packets (`Packet::handle` of core/src/network/protocol.rs, and `recv` of
-- core/src/network/session.rs). Work that is handed to the event loop is only listed.
use blockscape.Nodes.{Node, node_beq}
use blockscape.Network.Message.{
  Message, introduce, ping, pong, find_nodes, node_list, new_transaction, new_block, broadcast,
  sync_blocks, query_data, chain_data, spot_chain_data, bye, data_error, exit, DataRequestError,
  hashes_not_found, rate_exceeded, network_not_available, internal_error,
}
use blockscape.Network.Job.{NetworkJob}
use blockscape.Base.{
  ℕ, zero, suc, Bool, true, false, not, Option, none, some, List, [], ◌∷◌, Bin, nat_eq, list_eq,
  ◌==◌, if◌then◌else◌,
}
use blockscape.Network.Session.{
  Packet, Context, Session, spawned, node_response_size, is_introduced, effect, send_reply,
  send_introduce, close,
}
use blockscape.Network.Session.Checks.{check_sig, recv_ping, mark_abuse}

-- `skip(n)` and `take(n)`
abbrev skip : ℕ → List Node → List Node
skip zero xs = xs
skip (suc n) [] = []
skip (suc n) (x ∷ xs) = skip n xs

abbrev take : ℕ → List Node → List Node
take zero xs = []
take (suc n) [] = []
take (suc n) (x ∷ xs) = x ∷ take n xs

abbrev pub without : Node → List Node → List Node
without peer [] = []
without peer (x ∷ xs) = let rest = without peer xs in if node_beq x peer then rest else x ∷ rest

module _ (c : Context) where
  abbrev pub answer_introduce : Packet → Session → Session
  answer_introduce p s = if check_sig c p s.remote_peer then send_introduce c s else close c s

  abbrev pub answer_find : ℕ → ℕ → ℕ → Session → Session
  answer_find network_id n seq s =
      send_reply c
        (node_list (without s.remote_peer (take node_response_size (skip n c.peers))) network_id n)
        seq false s

  abbrev pub answer_broadcast : ℕ → Bin → Session → Session
  answer_broadcast id payload s =
      if c.handle_broadcast s.network_id id payload then s else mark_abuse c s

  -- An error that names missing hashes is left unimplemented, which is a panic.
  abbrev pub answer_error : DataRequestError → Session → Option Session
  answer_error (hashes_not_found hashes) s = none
  answer_error rate_exceeded s = some s
  answer_error network_not_available s = some s
  answer_error internal_error s = some s

  -- The work that a message hands to the event loop is only listed.
  unfoldable pub handle_message : Message → Packet → Session → Option Session
  unfolding check_sig send_introduce close send_reply mark_abuse recv_ping node_beq
  handle_message (introduce network_id node port) p s = some (answer_introduce p s)
  handle_message (ping time) p s = some (send_reply c (pong time) p.seq false s)
  handle_message (pong time) p s = some (recv_ping c time s)
  handle_message (find_nodes network_id n) p s = some (answer_find network_id n p.seq s)
  handle_message (new_transaction txn) p s = some (effect (spawned p.msg) s)
  handle_message (new_block block) p s = some (effect (spawned p.msg) s)
  handle_message (broadcast id payload) p s = some (answer_broadcast id payload s)
  handle_message (sync_blocks last target) p s = some (effect (spawned p.msg) s)
  handle_message (query_data hashes) p s = some (effect (spawned p.msg) s)
  handle_message (spot_chain_data blocks txns) p s = some s
  handle_message (chain_data to pkg) p s = some (effect (spawned p.msg) s)
  handle_message (data_error e) p s = answer_error e s
  handle_message (bye reason) p s = some (close c s)
  handle_message (node_list nodes network_id n) p s = some s

  -- `Packet::handle`
  unfoldable pub handle : Packet → Session → Option Session
  unfolding handle_message
  handle p s = handle_message p.msg p s

  -- The job that a packet finishes.
  abbrev pub finish_job : ℕ → Session → Option NetworkJob × Session
  finish_job seq s = elim s.current_job [
    | none ↦ (none, s)
    | some j ↦ if j.1 == seq then (some j.0, record s { current_job = none }) else (none, s)
  ]

  abbrev pub finished : ℕ → Option Session → Option (Option NetworkJob × Session)
  finished seq none = none
  finished seq (some s) = some (finish_job seq s)

  abbrev pub is_introduce : Message → Bool
  is_introduce (introduce network_id node port) = true
  is_introduce _ = false

  -- A packet before the introduction.
  abbrev pub too_early : Message → Session → Option (Option NetworkJob × Session)
  too_early msg s = if is_introduce msg then none else some (none, record s { done = some exit })

  -- `recv`; a panic is `none`.
  unfoldable pub recv : Packet → Session → Option (Option NetworkJob × Session)
  unfolding is_introduced handle
  recv p s = elim s.done [
    | some reason ↦ some (none, s)
    | none ↦ if not (is_introduced s) then too_early p.msg s else finished p.seq (handle p s)
  ]
