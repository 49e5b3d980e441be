-- ===== src/Coordinator/GroupStore/Tests.antt =====
-- The theorems on the group store at a group that one member has joined.
use kaf_go.Base.{ℕ, ◌≡◌, ◌↔◌, ◌*◌, ◌^◌, refl, true, false, List, [], ◌∷◌, none, some, map, arith}
use kaf_go.Base.Assoc.{Assoc, lookup, insert, erase}
use kaf_go.Coordinator.Group.{
  completing_rebalance, preparing_rebalance, GroupMember, GroupMeta, JoinResult, joined,
  is_preparing, transition_to_prepare_rebalance, max_rebalance_timeout, max_timeout_loop,
  maybe_close_join_barrier,
}
use kaf_go.Coordinator.Group.Channels.{Unsent}
use kaf_go.Coordinator.Group.Sound.{IsSound}
use kaf_go.Coordinator.GroupStore.{
  GroupStore, new_group_store, channel, done, ran, panics, JoinRequest, enter, join_group,
  sync_group, without_member, leave_group, on_rebalance_timeout, heartbeat, rebalance_in_process,
}
use kaf_go.Coordinator.GroupStore.Offsets.{
  CommitOffset, FetchOffsetQuery, Commit, after_commits, fetch_offsets,
}
use kaf_go.Coordinator.GroupStore.Offsets.Last.{told, last_in, fetch_offsets-last}
use kaf_go.Coordinator.GroupStore.Steps.{join, sync, Reach, here, next}
use kaf_go.Coordinator.GroupStore.Invariant.{reachable-IsSound}
use kaf_go.Coordinator.GroupStore.Timeout.{on_rebalance_timeout-panics, late_timeout_empties}
use kaf_go.Coordinator.GroupStore.Lost.{join_in_completing_lost}

-- Member m joins group 1.
abbrev join_of : ℕ → JoinRequest
join_of m = record {
  group_id = 1;
  member_id = m;
  group_instance_id = 0;
  protocol_name = 1;
  metadata = 9 ∷ [];
  session_timeout = 10 ^ 10;
  rebalance_timeout = 5 * 10 ^ 9;
}

abbrev member_of : ℕ → GroupMember
member_of m = record {
  member_id = m;
  group_instance_id = 0;
  session_timeout = 10 ^ 10;
  rebalance_timeout = 5 * 10 ^ 9;
  metadata = 9 ∷ [];
  evicted = false;
}

-- Member 5 leads the first generation.
abbrev led : GroupMeta
led = record {
  group_id = 1;
  state = completing_rebalance;
  generation_id = 1;
  leader_id = 5;
  protocol_name = 1;
  members = (5, member_of 5) ∷ [];
  pending_joins = [];
  pending_syncs = [];
  leader_assignment = none;
  rebalance_timer = some (5 * 10 ^ 9);
}

abbrev first_result : JoinResult
first_result = record {
  generation_id = 1;
  leader_id = 5;
  protocol_name = 1;
  members = record { member_id = 5; group_instance_id = 0; metadata = 9 ∷ [] } ∷ [];
}

abbrev one_join : GroupStore
one_join = record { groups = (1, led) ∷ []; sent = (0, joined first_result) ∷ []; next_channel = 1 }

first_join : join_group (join_of 5) new_group_store ≡ ran (channel 0) one_join
unfolding join_group enter maybe_close_join_barrier transition_to_prepare_rebalance
    max_rebalance_timeout max_timeout_loop lookup insert
first_join = refl

one_join-Reach : Reach new_group_store one_join
one_join-Reach = next here (join (join_of 5) new_group_store (channel 0) one_join first_join)

-- Member 6 syncs before the leader.
abbrev waiting : GroupMeta
waiting = record led { pending_syncs = record { member_id = 6; channel = 1 } ∷ [] }

abbrev one_sync : GroupStore
one_sync = record one_join { groups = (1, waiting) ∷ []; next_channel = 2 }

follower_waits : sync_group 1 6 1 none one_join ≡ ran (channel 1) one_sync
unfolding sync_group lookup insert
follower_waits = refl

found : lookup 1 one_join.groups ≡ some led
unfolding lookup
found = refl

found_waiting : lookup 1 one_sync.groups ≡ some waiting
unfolding lookup
found_waiting = refl

reachable-IsSound_example : IsSound waiting
reachable-IsSound_example =
    reachable-IsSound one_sync 1 waiting
      (next one_join-Reach (sync 1 6 1 none one_join (channel 1) one_sync follower_waits))
      found_waiting

-- Member 5 is assigned the byte 50, and member 6 the byte 60.
abbrev shares : Assoc (List ℕ)
shares = (5, 50 ∷ []) ∷ (6, 60 ∷ []) ∷ []

-- One of two members has left, and the other has not joined again.
abbrev left_alone : GroupMeta
left_alone = record led { state = preparing_rebalance; generation_id = 2 }

abbrev nobody_back : GroupStore
nobody_back = record one_join { groups = (1, left_alone) ∷ [] }

leaving :
    leave_group 1 6 (record one_join {
      groups = (1, record led { members = (5, member_of 5) ∷ (6, member_of 6) ∷ [] }) ∷ [];
    })
    ≡ ran done (record nobody_back {
      groups = (1, record left_alone { leader_id = 0; protocol_name = 0 }) ∷ [];
    })
unfolding leave_group without_member transition_to_prepare_rebalance max_rebalance_timeout
    max_timeout_loop lookup insert erase
leaving = refl

heartbeat_while_preparing : heartbeat 1 5 2 nobody_back ≡ rebalance_in_process
unfolding heartbeat lookup
heartbeat_while_preparing = refl

found_alone : lookup 1 nobody_back.groups ≡ some left_alone
unfolding lookup
found_alone = refl

on_rebalance_timeout-panics_example : (on_rebalance_timeout 1 2 nobody_back ≡ panics) ↔ (
    (left_alone.generation_id ≡ 2)
    × (is_preparing left_alone.state ≡ true)
    × (left_alone.pending_joins ≡ []))
on_rebalance_timeout-panics_example =
    on_rebalance_timeout-panics 1 2 nobody_back left_alone found_alone

late_timeout_empties_example :
    (t : GroupStore) × (on_rebalance_timeout 1 1 one_join ≡ ran done t)
    × (lookup 1 t.groups ≡ some (record led { members = [] }))
late_timeout_empties_example = late_timeout_empties 1 one_join led found refl refl

join_in_completing_lost_example :
    (t : GroupStore) × (join_group (join_of 6) one_join ≡ ran (channel 1) t)
    × ((u : GroupStore) → Reach t u → Unsent 1 u.sent)
join_in_completing_lost_example =
    join_in_completing_lost one_join (join_of 6) led one_join-Reach found refl refl

abbrev commit_of : ℕ → ℕ → ℕ → CommitOffset
commit_of topic partition offset = record {
  topic_name = topic;
  partition_idx = partition;
  offset = offset;
  leader_epoch = 0;
  metadata = none;
}

-- Two groups commit on topic 7, the first of them twice.
abbrev three_commits : List Commit
three_commits =
    record { clock = λ i. i; group_id = 1; commits = commit_of 7 0 10 ∷ commit_of 7 1 20 ∷ [] }
    ∷ record { clock = λ i. i; group_id = 2; commits = commit_of 7 0 90 ∷ [] }
    ∷ record { clock = λ i. i; group_id = 1; commits = commit_of 7 0 15 ∷ [] }
    ∷ []

abbrev query_of : ℕ → ℕ → FetchOffsetQuery
query_of topic partition = record { topic_name = topic; partition_idx = partition }

fetch_offsets-last_example :
    fetch_offsets 1 (query_of 7 0 ∷ query_of 8 0 ∷ []) (after_commits three_commits [])
    ≡ map (λ q. told q (last_in 1 q three_commits)) (query_of 7 0 ∷ query_of 8 0 ∷ [])
fetch_offsets-last_example =
    fetch_offsets-last 1 (query_of 7 0 ∷ query_of 8 0 ∷ []) three_commits
      (omega arith, (omega arith, tt))
      ((omega arith, (omega arith, tt)), ((omega arith, tt), ((omega arith, tt), tt)))
