-- ===== src/Network/Session/Jobs.antt =====
-- Jobs of a session: a job that is taken is given back by the answer to its request.
use blockscape.Network.Message.{
  Message, data_error, hashes_not_found, introduce, ping, pong, find_nodes, node_list,
  new_transaction, new_block, broadcast, sync_blocks, query_data, chain_data, spot_chain_data, bye,
  rate_exceeded, network_not_available, internal_error,
}
use blockscape.Network.Job.{NetworkJob, make_req}
use blockscape.Network.Session.{Packet, Context, Session, is_introduced}
use blockscape.Network.Session.Checks.{assign_job}
use blockscape.Network.Session.Receive.{handle, handle_message, recv, finish_job}
use blockscape.Network.Session.Laws.{send-Sent}
use blockscape.Network.Session.Steps.{recv_parts, handle-Handled, AllHandled}
use blockscape.Base.{
  ℕ, ◌≡◌, refl, ap, ◌∙◌, Bool, true, false, Option, none, some, nat_eq, ◌==◌, if◌then◌else◌, arith,
}
use blockscape.Base.Int.{ℤ}

-- The messages whose handling is left unimplemented.
abbrev pub panics : Message → Bool
panics (data_error (hashes_not_found hashes)) = true
panics _ = false

module _ (c : Context) where
  -- Every other message is handled.
  handle_message_total :
      (m : Message) (p : Packet) (s : Session)
      → panics m ≡ false
      → (t : Session) × (handle_message c m p s ≡ some t)
  unfolding handle_message
  handle_message_total (introduce n node port) p s h = (_, refl)
  handle_message_total (ping time) p s h = (_, refl)
  handle_message_total (pong time) p s h = (_, refl)
  handle_message_total (find_nodes n k) p s h = (_, refl)
  handle_message_total (node_list nodes n k) p s h = (_, refl)
  handle_message_total (new_transaction txn) p s h = (_, refl)
  handle_message_total (new_block block) p s h = (_, refl)
  handle_message_total (broadcast id payload) p s h = (_, refl)
  handle_message_total (sync_blocks last target) p s h = (_, refl)
  handle_message_total (query_data hashes) p s h = (_, refl)
  handle_message_total (chain_data to pkg) p s h = (_, refl)
  handle_message_total (spot_chain_data blocks txns) p s h = (_, refl)
  handle_message_total (bye reason) p s h = (_, refl)
  handle_message_total (data_error (hashes_not_found l)) p s h = absurd (cc)
  handle_message_total (data_error rate_exceeded) p s h = (s, refl)
  handle_message_total (data_error network_not_available) p s h = (s, refl)
  handle_message_total (data_error internal_error) p s h = (s, refl)

  handle_total :
      (p : Packet) (s : Session) → panics p.msg ≡ false → (t : Session) × (handle c p s ≡ some t)
  unfolding handle
  handle_total p s h = handle_message_total p.msg p s h

  kept_job :
      (s t : Session) (o : Option Session)
      → AllHandled c s o
      → o ≡ some t
      → t.current_job ≡ s.current_job
  kept_job s t none k h = absurd (cc)
  kept_job s t (some u) k h = let q : t ≡ u = cc in ap (λ x. x.current_job) q ∙ k.job

  handled_job : (p : Packet) (s t : Session) → handle c p s ≡ some t → t.current_job ≡ s.current_job
  handled_job p s t h = kept_job s t (handle c p s) (handle-Handled c p s) h

  -- What a session with a job makes of a packet that does not panic.
  recv_job :
      (p : Packet) (s : Session) (job : NetworkJob) (seq : ℕ) (now : ℤ)
      → s.done ≡ none
      → is_introduced s ≡ true
      → s.current_job ≡ some (job, seq, now)
      → panics p.msg ≡ false
      → (t : Session) × (recv c p s ≡ some ((if seq == p.seq then some job else none), t))
        × (t.current_job ≡ (if seq == p.seq then none else some (job, seq, now)))
  recv_job p s job seq now d i j h =
      let (t, r) = handle_total p s h in
      let k = handled_job p s t r in
      ((finish_job c p.seq t).1, recv_parts c p s ∙ ground (arith, r, k), ground (arith, k))

  -- A session that is introduced, not done and without a job takes a job. If sending the request
  -- does not end it, the next packet that is no error naming missing hashes gives the job back,
  -- and leaves the session without one, exactly if it answers with the sequence number that the
  -- request had; otherwise it gives no job, and the session
  -- keeps its own, with the number and the time of the request.
  pub recv-assign_job :
      (job : NetworkJob) (now : ℤ) (s : Session) (p : Packet)
      → s.current_job ≡ none
      → is_introduced s ≡ true
      → (assign_job c job now s).1.done ≡ none
      → panics p.msg ≡ false
      → ((assign_job c job now s).0 ≡ true)
        × ((t : Session) × (recv c p (assign_job c job now s).1
              ≡ some ((if s.current_seq == p.seq then some job else none), t))
            × (t.current_job
                ≡ (if s.current_seq == p.seq then none else some (job, s.current_seq, now))))
  unfolding assign_job is_introduced
  recv-assign_job job now s p j i d h =
      let r = send-Sent c (make_req c.hash_header job) false s in
      (
        ground (arith, r.job),
        recv_job p (assign_job c job now s).1 job s.current_seq now d
            (ground (arith, r.port, r.job)) (ground (arith, r.job)) h,
      )
