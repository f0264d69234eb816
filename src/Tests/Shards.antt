-- ===== src/Tests/Shards.antt =====
-- Examples of a shard.
use blockscape.Nodes
use blockscape.Nodes.{Node}
use blockscape.Network.Message.{abuse}
use blockscape.Network.Session.{Session, is_introduced}
use blockscape.Network.Shard.{ShardInfo, Sweep, peer_id, check_one, primary, check_sessions}
use blockscape.Network.Shard.Laws.{check_one-abuse}
use blockscape.Network.Shard.Assigned.{AllLeft, check_sessions-AllLeft}
use blockscape.Network.Job
use blockscape.Base.{◌≡◌, refl, false, some, [], ◌∷◌, length}
use blockscape.Base.Int.{ℤ, pos}
use blockscape.Tests.Sessions.{peer, context, live}

abbrev abusive : Session
abusive = record live { done = some abuse }

abbrev nothing_yet : Sweep
nothing_yet = record {
  checked = [];
  removed = [];
  ids = [];
  jobs = [];
  repo = record { available_nodes = []; sorted_nodes = []; changes = 0 };
}

abbrev time : ℤ × ℤ × ℤ
time = (pos 10, pos 11, pos 12)

check_one-abuse_example :
    Nodes.get
      (check_one context length time (7 ∷ []) abusive nothing_yet).repo
      (peer_id context length abusive)
    ≡ some peer
unfolding is_introduced
check_one-abuse_example = check_one-abuse context length time (7 ∷ []) abusive nothing_yet refl refl

-- A session whose job is late, and one whose stream takes no packet.
abbrev late : Session
late = record live {
  current_job = some (record { try = 0; job_data = Job.find_nodes 1 }, 5, pos 0);
}

abbrev blocked : Session
blocked = record live { sink = some (λ p. false) }

abbrev shard : ShardInfo
shard = record {
  network_id = 1;
  port = 3;
  mode = primary;
  sessions = (7 ∷ [], abusive) ∷ (8 ∷ [], late) ∷ (9 ∷ [], blocked) ∷ [];
  peer_ids = [];
  last_peer_idx = 0;
  node_repo = nothing_yet.repo;
  unsent_broadcasts = [];
}

abbrev late_time : ℤ × ℤ × ℤ
late_time = (pos 10, pos 11, pos 9000)

check_sessions-AllLeft_example :
    AllLeft
      (check_sessions context length
        (λ a. late_time)
        (λ j. (9 ∷ []) ∷ [])
        (pos 9001)
        shard).sessions
check_sessions-AllLeft_example =
    check_sessions-AllLeft context length (λ a. late_time) (λ j. (9 ∷ []) ∷ []) (pos 9001) shard
