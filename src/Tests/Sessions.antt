-- ===== src/Tests/Sessions.antt =====
-- Examples of sessions.
use blockscape.Nodes.{Node, tcp}
use blockscape.Network.Message.{pong}
use blockscape.Network.Job
use blockscape.Network.Job.{NetworkJob}
use blockscape.Network.Session.{
  Context, Session, NewSessionOptions, Packet, new, is_introduced, close, diff,
}
use blockscape.Network.Session.Checks.{assign_job, check_conn}
use blockscape.Network.Session.Receive.{recv}
use blockscape.Network.Session.Laws.{is_some}
use blockscape.Network.Session.Steps.{here, next, closed, checked, done_stays, new-bounds}
use blockscape.Network.Session.Timeout.{check_all, check_all-ends}
use blockscape.Network.Session.Jobs.{recv-assign_job}
use blockscape.Base.{◌≡◌, refl, true, false, none, some, [], ◌∷◌, arith, leb}
use blockscape.Base.Int.{pos, ◌+ℤ◌, ◌-ℤ◌}

abbrev pub peer : Node
peer = record {
  endpoint = record { protocol = tcp; host = []; port = 35653 };
  key = 4 ∷ 2 ∷ [];
  version = 1;
  name = [];
}

abbrev pub context : Context
context = record {
  my_node = record peer { key = 1 ∷ 2 ∷ [] };
  sign = λ m. 9 ∷ [];
  verify = λ m sig node. true;
  hash_header = λ h. h.prev;
  average = λ a b. a;
  handle_broadcast = λ network id payload. false;
  peers = peer ∷ [];
}

abbrev options : NewSessionOptions
options = record {
  local_port = 3;
  remote_peer = peer;
  remote_addr = [];
  network_id = 1;
  sink = none;
}

-- A session that the peer has been introduced to.
abbrev pub live : Session
live = record {
  done = none;
  network_id = 1;
  remote_peer = peer;
  remote_port = 4;
  local_port = 3;
  remote_addr = [];
  sink = none;
  established_since = pos 0;
  latency = pos 0;
  last_ping_send = none;
  current_job = none;
  current_seq = 7;
  strikes = 1;
  abuses = 0;
  effects = [];
}

done_stays_example : is_some (close context (close context live)).done ≡ true
unfolding close
done_stays_example =
    done_stays context (close context live) (close context (close context live))
      (next (closed (close context live)) here) refl

new-bounds_example :
    (leb (check_conn context (pos 5) (pos 6) (new options (pos 0))).strikes 3 ≡ true)
    × (leb (check_conn context (pos 5) (pos 6) (new options (pos 0))).abuses 3 ≡ true)
unfolding check_conn new
new-bounds_example =
    new-bounds context options (pos 0) (check_conn context (pos 5) (pos 6) (new options (pos 0)))
      (next (checked (pos 5) (pos 6) (new options (pos 0))) here) refl

check_all-ends_example :
    is_some (check_all context (pos 0 ∷ pos 4000 ∷ pos 8000 ∷ pos 12000 ∷ pos 16000 ∷ []) live).done
    ≡ true
unfolding diff ◌+ℤ◌ ◌-ℤ◌
check_all-ends_example =
    check_all-ends context (pos 0 ∷ pos 4000 ∷ pos 8000 ∷ pos 12000 ∷ pos 16000 ∷ []) live refl refl
      (omega arith)

abbrev job : NetworkJob
job = record { try = 0; job_data = Job.find_nodes 1 }

abbrev answer : Packet
answer = record { seq = 7; msg = pong (pos 8); sig = [] }

recv-assign_job_example :
    ((assign_job context job (pos 1) live).0 ≡ true)
    × ((t : Session) × (recv context answer (assign_job context job (pos 1) live).1
          ≡ some (some job, t))
        × (t.current_job ≡ none))
unfolding assign_job is_introduced
recv-assign_job_example = recv-assign_job context job (pos 1) live answer refl refl refl refl
