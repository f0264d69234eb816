-- ===== src/Network/Session/Laws.antt =====
-- Bounds on strikes and abuses of a session, which every method keeps, and what the methods leave
-- as it is: a session that is done stays done, and sending does not touch the jobs.
use blockscape.Network.Message.{Message, exit, ping, introduce}
use blockscape.Network.Session.{
  Packet, Context, Session, send_packet, send, send_reply, close, packet, next_seq, is_introduced,
  timeout_tolerance, max_abuses,
}
use blockscape.Network.Session.Checks.{
  recv_ping, check_conn, mark_abuse, strike_late, ping_or_end, introduce_again,
}
use blockscape.Base.{
  ℕ, ◌≡◌, refl, Bool, true, false, ◌⊎◌, inl, inr, Option, none, some, Bool-cases, Option-cases, leb,
  ◌&&◌, nat_eq, if◌then◌else◌, arith,
}
use blockscape.Base.Int.{ℤ}

abbrev pub is_some : {A : Type 0} → Option A → Bool
is_some none = false
is_some (some a) = true

-- A session that is not done has at most as many strikes and abuses as are tolerated.
abbrev pub is_sound : Session → Bool
is_sound s =
    if is_some s.done then true else leb s.strikes timeout_tolerance && leb s.abuses max_abuses

-- What sending changes: at most it ends the session.
pub record Sent (s t : Session) : Type 0 where
  pub job : t.current_job ≡ s.current_job
  pub strikes : t.strikes ≡ s.strikes
  pub abuses : t.abuses ≡ s.abuses
  pub port : t.remote_port ≡ s.remote_port
  pub last_ping : t.last_ping_send ≡ s.last_ping_send
  pub done : (t.done ≡ s.done) ⊎ (t.done ≡ some exit)

send_packet-Sent : (pl : Packet) (s : Session) → Sent s (send_packet pl s)
unfolding send_packet
send_packet-Sent pl s = elim (Option-cases s.sink) [
  | inl h ↦ rw h (record {
    job = refl;
    strikes = refl;
    abuses = refl;
    port = refl;
    last_ping = refl;
    done = inl refl;
  })
  | inr (takes, h) ↦ elim (Bool-cases (takes pl)) [
    | inl g ↦ rw h (
        rw g (record {
          job = refl;
          strikes = refl;
          abuses = refl;
          port = refl;
          last_ping = refl;
          done = inl refl;
        }))
    | inr g ↦ rw h (
        rw g (record {
          job = refl;
          strikes = refl;
          abuses = refl;
          port = refl;
          last_ping = refl;
          done = inr refl;
        }))
  ]
]

module _ (c : Context) where
  pub send-Sent : (msg : Message) (signed : Bool) (s : Session) → Sent s (send c msg signed s)
  unfolding send
  send-Sent msg signed s =
      let r = send_packet-Sent (packet c s.current_seq msg signed) (next_seq s) in
      record {
        job = r.job;
        strikes = r.strikes;
        abuses = r.abuses;
        port = r.port;
        last_ping = r.last_ping;
        done = r.done;
      }

  pub send_reply-Sent :
      (msg : Message) (seq : ℕ) (signed : Bool) (s : Session)
      → Sent s (send_reply c msg seq signed s)
  unfolding send_reply
  send_reply-Sent msg seq signed s = send_packet-Sent (packet c seq msg signed) s

-- What every method keeps: the bounds, and that the session is done.
pub record Kept (s t : Session) : Type 0 where
  pub sound : is_sound s ≡ true → is_sound t ≡ true
  pub done : is_some s.done ≡ true → is_some t.done ≡ true

pub Sent→Kept : (s t : Session) → Sent s t → Kept s t
Sent→Kept s t r = record {
  sound = ground (arith, r.strikes, r.abuses, r.done);
  done = ground (arith, r.done);
}

pub Kept-self : (s : Session) → Kept s s
Kept-self s = record { sound = λ h. h; done = λ h. h }

module _ (c : Context) where
  pub close-Kept : (s : Session) → Kept s (close c s)
  unfolding close
  close-Kept s = record { sound = λ h. refl; done = λ h. refl }

  pub mark_abuse-Kept : (s : Session) → Kept s (mark_abuse c s)
  unfolding mark_abuse
  mark_abuse-Kept s = record { sound = ground arith; done = ground arith }

  pub recv_ping-Kept : (time : ℤ) (s : Session) → Kept s (recv_ping c time s)
  unfolding recv_ping
  recv_ping-Kept time s = record { sound = ground arith; done = ground arith }

  ping_or_end-done :
      (lps : ℤ) (s : Session)
      → leb s.strikes 4 ≡ true
      → leb s.abuses max_abuses ≡ true
      → is_sound (ping_or_end c lps s) ≡ true
  ping_or_end-done lps s h g = ground (arith, send-Sent c (ping lps) false s)

  introduce_again_sound :
      (s : Session) → s.done ≡ none → is_sound s ≡ true → is_sound (introduce_again c s) ≡ true
  introduce_again_sound s h g =
      ground (arith, send-Sent c (introduce s.network_id c.my_node s.local_port) false s)

  pub check_conn_done :
      (now lps : ℤ) (s : Session) → is_some s.done ≡ true → check_conn c now lps s ≡ s
  unfolding check_conn
  check_conn_done now lps s h = ground arith

  pub check_conn_live :
      (now lps : ℤ) (s : Session)
      → s.done ≡ none
      → check_conn c now lps s
        ≡ (if is_introduced s then ping_or_end c lps (strike_late c now s) else introduce_again c s)
  unfolding check_conn
  check_conn_live now lps s h = ground (arith, h)

  pub check_conn-Kept : (now lps : ℤ) (s : Session) → Kept s (check_conn c now lps s)
  check_conn-Kept now lps s = elim (Option-cases s.done) [
    | inr (r, h) ↦ rw (check_conn_done now lps s (ground arith)) (Kept-self s)
    | inl h ↦ record {
      sound = λ a. ground (
        arith,
        check_conn_live now lps s h,
        ping_or_end-done lps (strike_late c now s) (ground arith) (ground arith),
        introduce_again_sound s h a,
      );
      done = ground arith;
    }
  ]
