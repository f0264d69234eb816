-- ===== src/Network/Session/Steps.antt =====
-- The methods of a session as steps: the bounds hold in every session that is reached, a session
-- that is done stays done, and packets leave the job to `recv`.
use blockscape.Nodes.{Node}
use blockscape.Network.Message.{
  Message, bye, exit, pong, introduce, abuse, node_list, broadcast, ping, find_nodes,
  new_transaction, new_block, sync_blocks, query_data, chain_data, spot_chain_data, data_error,
  hashes_not_found, rate_exceeded, network_not_available, internal_error,
}
use blockscape.Network.Job.{NetworkJob, make_req}
use blockscape.Network.Session.{
  Packet, Context, Session, Effect, effect, spawned, NewSessionOptions, new, send, send_reply,
  send_introduce, close, is_introduced,
}
use blockscape.Network.Session.Checks.{
  handle_introduce, recv_ping, check_conn, check_job, assign_job, update_job, mark_abuse,
  introduction, check_sig, meet, introduced_by,
}
use blockscape.Network.Session.Receive.{
  is_introduce, too_early, finish_job, finished, handle, handle_message, recv,
}
use blockscape.Network.Session.Laws.{
  is_some, Sent, Kept, Sent→Kept, Kept-self, send-Sent, send_reply-Sent, close-Kept,
  mark_abuse-Kept, recv_ping-Kept, check_conn-Kept,
}
use blockscape.Base.{
  ℕ, ◌+◌, ◌%◌, ◌^◌, ◌≡◌, refl, sym, Bool, true, false, Option, none, some, Bin, Bool-cases,
  Option-cases, if_elim, inl, inr, nat_eq, list_eq, leb, if◌then◌else◌, arith,
}
use blockscape.Base.Int.{ℤ}

-- What handling a packet keeps.
pub record Handled (s t : Session) : Type 0 where
  pub kept : Kept s t
  pub job : t.current_job ≡ s.current_job

Sent→Handled : (s t : Session) → Sent s t → Handled s t
Sent→Handled s t r = record { kept = Sent→Kept s t r; job = r.job }

module _ (c : Context) where
  send_introduce-Handled : (s : Session) → Handled s (send_introduce c s)
  unfolding send_introduce
  send_introduce-Handled s =
      Sent→Handled s (send_introduce c s)
        (send-Sent c (introduce s.network_id c.my_node s.local_port) true s)

  close-Handled : (s : Session) → Handled s (close c s)
  unfolding close
  close-Handled s = record { kept = close-Kept c s; job = (send-Sent c (bye exit) false s).job }

  mark_abuse-Handled : (s : Session) → Handled s (mark_abuse c s)
  unfolding mark_abuse
  mark_abuse-Handled s = record {
    kept = mark_abuse-Kept c s;
    job = ground (
      arith,
      (send-Sent c (bye abuse) false (record s { abuses = (s.abuses + 1) % 2 ^ 32 })).job,
    );
  }

  recv_ping-Handled : (time : ℤ) (s : Session) → Handled s (recv_ping c time s)
  unfolding recv_ping
  recv_ping-Handled time s = record { kept = recv_ping-Kept c time s; job = ground arith }

  choose-Handled :
      (b : Bool) (s t u : Session) → Handled s t → Handled s u → Handled s (if b then t else u)
  choose-Handled true s t u h g = h
  choose-Handled false s t u h g = g

  only_effect : (e : Effect) (s : Session) → Handled s (effect e s)
  only_effect e s = record { kept = record { sound = λ h. h; done = λ h. h }; job = refl }

  Handled-self : (s : Session) → Handled s s
  Handled-self s = record { kept = Kept-self s; job = refl }

  -- The session that is left, if there is no panic.
  abbrev pub AllHandled : Session → Option Session → Type 0
  AllHandled s none = Unit
  AllHandled s (some t) = Handled s t

  handle_message-Handled :
      (m : Message) (p : Packet) (s : Session) → AllHandled s (handle_message c m p s)
  unfolding handle_message
  handle_message-Handled (introduce n node port) p s =
      choose-Handled (check_sig c p s.remote_peer) s (send_introduce c s) (close c s)
        (send_introduce-Handled s) (close-Handled s)
  handle_message-Handled (ping time) p s =
      Sent→Handled s _ (send_reply-Sent c (pong time) p.seq false s)
  handle_message-Handled (pong time) p s = recv_ping-Handled time s
  handle_message-Handled (find_nodes n k) p s = Sent→Handled s _ (send_reply-Sent c _ p.seq false s)
  handle_message-Handled (broadcast id payload) p s =
      choose-Handled (c.handle_broadcast s.network_id id payload) s s (mark_abuse c s)
        (Handled-self s) (mark_abuse-Handled s)
  handle_message-Handled (data_error (hashes_not_found l)) p s = tt
  handle_message-Handled (data_error rate_exceeded) p s = Handled-self s
  handle_message-Handled (data_error network_not_available) p s = Handled-self s
  handle_message-Handled (data_error internal_error) p s = Handled-self s
  handle_message-Handled (bye reason) p s = close-Handled s
  handle_message-Handled (new_transaction txn) p s = only_effect (spawned p.msg) s
  handle_message-Handled (new_block block) p s = only_effect (spawned p.msg) s
  handle_message-Handled (sync_blocks last target) p s = only_effect (spawned p.msg) s
  handle_message-Handled (query_data hashes) p s = only_effect (spawned p.msg) s
  handle_message-Handled (chain_data to pkg) p s = only_effect (spawned p.msg) s
  handle_message-Handled (spot_chain_data blocks txns) p s = Handled-self s
  handle_message-Handled (node_list nodes n k) p s = Handled-self s

  pub handle-Handled : (p : Packet) (s : Session) → AllHandled s (handle c p s)
  unfolding handle
  handle-Handled p s = handle_message-Handled p.msg p s

  check_job-Kept : (now : ℤ) (s : Session) → Kept s (check_job c now s).1
  unfolding check_job
  check_job-Kept now s = record { sound = ground arith; done = ground arith }

  assign_job-Kept : (job : NetworkJob) (now : ℤ) (s : Session) → Kept s (assign_job c job now s).1
  unfolding assign_job
  assign_job-Kept job now s =
      let r = Sent→Kept s _ (send-Sent c (make_req c.hash_header job) false s) in
      record { sound = ground (arith, r.sound); done = ground (arith, r.done) }

  update_job-Kept : (job : NetworkJob) (s : Session) → Kept s (update_job c job s).1
  unfolding update_job
  update_job-Kept job s = record { sound = ground arith; done = ground arith }

  Kept-trans : (s t u : Session) → Kept s t → Kept t u → Kept s u
  Kept-trans s t u h g = record { sound = λ a. g.sound (h.sound a); done = λ a. g.done (h.done a) }

  meet-Kept : (node : Node) (port : ℕ) (s : Session) → Kept s (meet c node port s)
  meet-Kept node port s = record { sound = ground arith; done = ground arith }

  introduced_by-Kept :
      (p : Packet) (addr : Bin) (node : Node) (port : ℕ) (s : Session)
      → Kept s (introduced_by c p addr node port s)
  introduced_by-Kept p addr node port s =
      let first = meet-Kept node port s in
      let again = meet-Kept node port (record s { remote_addr = addr }) in
      let hello = (send_introduce-Handled (meet c node port s)).kept in
      record {
        sound = ground (arith, first.sound, again.sound, hello.sound);
        done = ground (arith, first.done, again.done, hello.done);
      }

  -- The session that `recv` leaves, if there is no panic.
  abbrev AllKept : Session → Option (Option NetworkJob × Session) → Type 0
  AllKept s none = Unit
  AllKept s (some r) = Kept s r.1

  Kept-at :
      (s t : Session) (j : Option NetworkJob) (o : Option (Option NetworkJob × Session))
      → AllKept s o
      → o ≡ some (j, t)
      → Kept s t
  Kept-at s t j none k h = absurd (cc)
  Kept-at s t j (some r) k h = let q : r.1 ≡ t = cc in rw (sym q) k

  finish_job-Kept : (seq : ℕ) (s : Session) → Kept s (finish_job c seq s).1
  finish_job-Kept seq s = record { sound = ground arith; done = ground arith }

  finished-Kept :
      (seq : ℕ) (s : Session) (o : Option Session) → AllHandled s o → AllKept s (finished c seq o)
  finished-Kept seq s none h = tt
  finished-Kept seq s (some t) h =
      Kept-trans s t (finish_job c seq t).1 h.kept (finish_job-Kept seq t)

  too_early-Kept : (msg : Message) (s : Session) → AllKept s (too_early c msg s)
  too_early-Kept msg s = elim (Bool-cases (is_introduce c msg)) [
    | inl h ↦ rw h tt
    | inr h ↦ rw h (record { sound = λ a. refl; done = λ a. refl })
  ]

  pub recv_parts :
      (p : Packet) (s : Session)
      → recv c p s ≡ (
          if is_some s.done
          then some (none, s)
          else if is_introduced s
          then finished c p.seq (handle c p s)
          else too_early c p.msg s)
  unfolding recv
  recv_parts p s = ground arith

  all-Kept : (p : Packet) (s : Session) → AllKept s (recv c p s)
  all-Kept p s = rw (recv_parts p s) (
      if_elim (AllKept s) (is_some s.done) _ _ (λ _. Kept-self s)
        λ _.
          if_elim (AllKept s) (is_introduced s) _ _
            (λ _. finished-Kept p.seq s (handle c p s) (handle-Handled p s))
            (λ _. too_early-Kept p.msg s))

  recv-Kept :
      (p : Packet) (s t : Session) (j : Option NetworkJob) → recv c p s ≡ some (j, t) → Kept s t
  recv-Kept p s t j h = Kept-at s t j (recv c p s) (all-Kept p s) h

  handle_introduce-Kept :
      (p : Packet) (addr : Bin) (s t : Session) → handle_introduce c p addr s ≡ some t → Kept s t
  unfolding handle_introduce
  handle_introduce-Kept p addr s t h = elim (Option-cases (introduction c p.msg)) [
    | inl g ↦ absurd (ground arith)
    | inr (i, g) ↦
        let q : introduced_by c p addr i.0 i.1 s ≡ t = ground arith in
        rw (sym q) (introduced_by-Kept p addr i.0 i.1 s)
  ]

-- One call of a public method that changes a session, by the peer, by the clock or by the node.
pub data Step (c : Context) : Session → Session → Type 0 where
  greeted :
      (p : Packet) (addr : Bin) (s t : Session) → handle_introduce c p addr s ≡ some t → Step c s t
  received :
      (p : Packet) (s t : Session) (j : Option NetworkJob) → recv c p s ≡ some (j, t) → Step c s t
  checked : (now lps : ℤ) (s : Session) → Step c s (check_conn c now lps s)
  polled : (now : ℤ) (s : Session) → Step c s (check_job c now s).1
  assigned : (job : NetworkJob) (now : ℤ) (s : Session) → Step c s (assign_job c job now s).1
  updated : (job : NetworkJob) (s : Session) → Step c s (update_job c job s).1
  abused : (s : Session) → Step c s (mark_abuse c s)
  closed : (s : Session) → Step c s (close c s)
  sent : (msg : Message) (signed : Bool) (s : Session) → Step c s (send c msg signed s)
  replied :
      (msg : Message) (seq : ℕ) (signed : Bool) (s : Session)
      → Step c s (send_reply c msg seq signed s)
  introduced : (s : Session) → Step c s (send_introduce c s)
  pinged : (time : ℤ) (s : Session) → Step c s (recv_ping c time s)

pub data Steps (c : Context) : Session → Session → Type 0 where
  here : {s : Session} → Steps c s s
  next : {s t u : Session} → Step c s t → Steps c t u → Steps c s u

Step-Kept : (c : Context) (s t : Session) → Step c s t → Kept s t
Step-Kept c _ _ (greeted p addr s t h) = handle_introduce-Kept c p addr s t h
Step-Kept c _ _ (received p s t j h) = recv-Kept c p s t j h
Step-Kept c _ _ (checked now lps s) = check_conn-Kept c now lps s
Step-Kept c _ _ (polled now s) = check_job-Kept c now s
Step-Kept c _ _ (assigned job now s) = assign_job-Kept c job now s
Step-Kept c _ _ (updated job s) = update_job-Kept c job s
Step-Kept c _ _ (abused s) = mark_abuse-Kept c s
Step-Kept c _ _ (closed s) = close-Kept c s
Step-Kept c _ _ (sent msg signed s) = Sent→Kept s _ (send-Sent c msg signed s)
Step-Kept c _ _ (replied msg seq signed s) = Sent→Kept s _ (send_reply-Sent c msg seq signed s)
Step-Kept c _ _ (introduced s) = (send_introduce-Handled c s).kept
Step-Kept c _ _ (pinged time s) = recv_ping-Kept c time s

Steps-Kept : (c : Context) (s t : Session) → Steps c s t → Kept s t
Steps-Kept c _ _ (here {s}) = Kept-self s
Steps-Kept c _ _ (next {s} {t} {u} h g) =
    Kept-trans c s t u (Step-Kept c s t h) (Steps-Kept c t u g)

-- A session that is done stays done through every sequence of calls of the public methods that
-- change it.
pub done_stays :
    (c : Context) (s t : Session) → Steps c s t → is_some s.done ≡ true → is_some t.done ≡ true
done_stays c s t h d = (Steps-Kept c s t h).done d

-- In every session that calls of the public methods lead to from a new one, and that is not done, at most three checks in a
-- row have failed, and the peer has been marked for abuse at most three times.
pub new-bounds :
    (c : Context) (opts : NewSessionOptions) (now : ℤ) (t : Session)
    → Steps c (new opts now) t
    → t.done ≡ none
    → (leb t.strikes 3 ≡ true) × (leb t.abuses 3 ≡ true)
unfolding new
new-bounds c opts now t h d =
    let sound = (Steps-Kept c (new opts now) t h).sound refl in (ground arith, ground arith)
