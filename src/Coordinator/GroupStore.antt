-- ===== src/Coordinator/GroupStore.antt =====
-- GroupStore of coordinator/group_store.go: the operations on its groups. Each method holds the
-- store's lock, so it is one step. The two timers call evict_member and on_rebalance_timeout, and
-- the cleanup timer collect_group. `sent` is what was sent on the channels, in order.
pub mod Steps
pub mod Invariant
pub mod Sync
pub mod Timeout
pub mod Moves
pub mod Lost
pub mod Offsets
mod Tests
use kaf_go.Base.{ℕ, suc, ◌+◌, Bool, true, false, ◌||◌, List, [], ◌∷◌, ◌++◌, Option, none, some}
use kaf_go.Base.{◌==◌, ◌&&◌, not, if◌then◌else◌, length, map}
use kaf_go.Base.Assoc.{Assoc, lookup, insert, erase}
use kaf_go.Coordinator.Group.{
  GroupState, preparing_rebalance, completing_rebalance, stable, dead, is_preparing, is_completing,
  is_resting, is_dead, GroupMember, PendingJoin, PendingSync, Answer, synced, GroupMeta, new_group,
  transition_to_prepare_rebalance, maybe_close_join_barrier, keep_joined,
}

pub record GroupStore : Type 0 where
  pub groups : Assoc GroupMeta
  pub sent : List (ℕ × Answer)
  pub next_channel : ℕ

abbrev pub new_group_store : GroupStore
new_group_store = record { groups = []; sent = []; next_channel = 0 }

-- The errors that the group methods give, of constant/error.go.
pub data GroupError : Type 0 where
  member_id_required group_id_not_found unknown_member_id : GroupError
  illegal_generation rebalance_in_progress : GroupError

-- A method returns a channel, nothing, or an error.
pub data Reply : Type 0 where
  channel : ℕ → Reply
  done : Reply
  refused : GroupError → Reply

-- A method returns, or it panics.
pub data Ran : Type 0 where
  ran : Reply → GroupStore → Ran
  panics : Ran

abbrev pub put_group : ℕ → GroupMeta → GroupStore → GroupStore
put_group group_id g s = record s { groups = insert group_id g s.groups }

-- A group behind maybeCloseJoinBarrier is stored, and what it sends is sent.
abbrev pub after_barrier : ℕ → Reply → GroupStore → Option (GroupMeta × List (ℕ × Answer)) → Ran
after_barrier group_id reply s none = panics
after_barrier group_id reply s (some (g, answers)) =
    ran reply (record s { groups = insert group_id g s.groups; sent = s.sent ++ answers })

pub data HeartbeatResult : Type 0 where
  ok rebalance_in_process unknown_member wrong_generation : HeartbeatResult

abbrev pub heartbeat_in : GroupState → HeartbeatResult
heartbeat_in preparing_rebalance = rebalance_in_process
heartbeat_in completing_rebalance = rebalance_in_process
heartbeat_in _ = ok

abbrev pub heartbeat_member : GroupMeta → ℕ → Option GroupMember → HeartbeatResult
heartbeat_member g generation_id none = unknown_member
heartbeat_member g generation_id (some m) =
    if generation_id == g.generation_id then heartbeat_in g.state else wrong_generation

abbrev pub heartbeat_group : ℕ → ℕ → Option GroupMeta → HeartbeatResult
heartbeat_group member_id generation_id none = unknown_member
heartbeat_group member_id generation_id (some g) =
    heartbeat_member g generation_id (lookup member_id g.members)

-- Heartbeat; it changes nothing but the session timer.
unfoldable pub heartbeat : ℕ → ℕ → ℕ → GroupStore → HeartbeatResult
heartbeat group_id member_id generation_id s =
    heartbeat_group member_id generation_id (lookup group_id s.groups)

-- What a JoinGroup call brings along.
pub record JoinRequest : Type 0 where
  pub group_id : ℕ
  pub member_id : ℕ
  pub group_instance_id : ℕ
  pub protocol_name : ℕ
  pub metadata : List ℕ
  pub session_timeout : ℕ
  pub rebalance_timeout : ℕ

abbrev pub found_or_new_group : JoinRequest → Option GroupMeta → GroupMeta
found_or_new_group r none = new_group r.group_id r.protocol_name
found_or_new_group r (some g) = g

abbrev pub joining_member : JoinRequest → Option GroupMember → GroupMember
joining_member r none = record {
  member_id = r.member_id;
  group_instance_id = r.group_instance_id;
  session_timeout = r.session_timeout;
  rebalance_timeout = r.rebalance_timeout;
  metadata = r.metadata;
  evicted = false;
}
joining_member r (some m) = record m { metadata = r.metadata }

abbrev pub with_member : JoinRequest → GroupMeta → GroupMeta
with_member r g = record g {
  members = insert r.member_id (joining_member r (lookup r.member_id g.members)) g.members;
}

-- The group of a join before the barrier is tried: the member is entered, a rebalance is started
-- if none runs, and the join is pending on the channel c.
unfoldable pub enter : JoinRequest → ℕ → GroupMeta → GroupMeta
enter r c g =
    let g' =
      if is_resting g.state
      then transition_to_prepare_rebalance (with_member r g)
      else with_member r g in
    record g' {
      pending_joins = g'.pending_joins ++ (record { member_id = r.member_id; channel = c } ∷ []);
    }

unfoldable pub join_group : JoinRequest → GroupStore → Ran
join_group r s =
    let g = found_or_new_group r (lookup r.group_id s.groups) in
    if r.member_id == 0
    then ran (refused member_id_required) (put_group r.group_id g s)
    else after_barrier r.group_id (channel s.next_channel)
        (record s { next_channel = suc s.next_channel })
        (maybe_close_join_barrier (enter r s.next_channel g))

-- The end of LeaveGroup and evictMember: the member is deleted, and the last one leaves a dead
-- group, whose cleanup is scheduled.
unfoldable pub without_member : ℕ → GroupMeta → GroupMeta
without_member member_id g =
    let g' = record g { members = erase member_id g.members } in
    if length g'.members == 0
    then record g' { state = dead }
    else transition_to_prepare_rebalance g'

abbrev pub leave_member : ℕ → ℕ → GroupMeta → GroupStore → Option GroupMember → Ran
leave_member group_id member_id g s none = ran (refused unknown_member_id) s
leave_member group_id member_id g s (some m) =
    ran done (put_group group_id (without_member member_id g) s)

abbrev pub leave_in : ℕ → ℕ → GroupStore → Option GroupMeta → Ran
leave_in group_id member_id s none = ran (refused group_id_not_found) s
leave_in group_id member_id s (some g) =
    leave_member group_id member_id g s (lookup member_id g.members)

unfoldable pub leave_group : ℕ → ℕ → GroupStore → Ran
leave_group group_id member_id s = leave_in group_id member_id s (lookup group_id s.groups)

abbrev pub evict_found : ℕ → ℕ → GroupMeta → GroupStore → Option GroupMember → GroupStore
evict_found group_id member_id g s none = s
evict_found group_id member_id g s (some m) =
    if m.evicted then s else put_group group_id (without_member member_id g) s

abbrev pub evict_in : ℕ → ℕ → GroupStore → Option GroupMeta → GroupStore
evict_in group_id member_id s none = s
evict_in group_id member_id s (some g) =
    evict_found group_id member_id g s (lookup member_id g.members)

-- evictMember, the session timer's function.
unfoldable pub evict_member : ℕ → ℕ → GroupStore → GroupStore
evict_member group_id member_id s = evict_in group_id member_id s (lookup group_id s.groups)

-- m[k], with the nil slice for a missing key.
abbrev pub assigned : Option (List ℕ) → List ℕ
assigned none = []
assigned (some a) = a

abbrev pub sync_answer : Assoc (List ℕ) → PendingSync → ℕ × Answer
sync_answer assignments p = (p.channel, synced (assigned (lookup p.member_id assignments)))

-- The leader's branch of SyncGroup: all that wait are answered.
abbrev pub sync_leader : ℕ → ℕ → Assoc (List ℕ) → GroupMeta → GroupStore → Ran
sync_leader group_id member_id assignments g s = ran (channel s.next_channel) (record {
  groups =
      insert group_id
        (record g { leader_assignment = some assignments; pending_syncs = []; state = stable })
        s.groups;
  sent =
      s.sent
      ++ ((s.next_channel, synced (assigned (lookup member_id assignments)))
          ∷ map (sync_answer assignments) g.pending_syncs);
  next_channel = suc s.next_channel;
})

abbrev pub sync_follower : ℕ → ℕ → GroupMeta → GroupStore → Option (Assoc (List ℕ)) → Ran
sync_follower group_id member_id g s (some assignments) = ran (channel s.next_channel) (record s {
  sent = s.sent ++ ((s.next_channel, synced (assigned (lookup member_id assignments))) ∷ []);
  next_channel = suc s.next_channel;
})
sync_follower group_id member_id g s none = ran (channel s.next_channel) (record s {
  groups =
      insert group_id
        (record g {
          pending_syncs =
              g.pending_syncs ++ (record { member_id = member_id; channel = s.next_channel } ∷ []);
        })
        s.groups;
  next_channel = suc s.next_channel;
})

abbrev pub sync_with : ℕ → ℕ → Option (Assoc (List ℕ)) → GroupMeta → GroupStore → Ran
sync_with group_id member_id none g s = sync_follower group_id member_id g s g.leader_assignment
sync_with group_id member_id (some assignments) g s =
    if member_id == g.leader_id
    then sync_leader group_id member_id assignments g s
    else sync_follower group_id member_id g s g.leader_assignment

abbrev pub sync_in : ℕ → ℕ → ℕ → Option (Assoc (List ℕ)) → GroupStore → Option GroupMeta → Ran
sync_in group_id member_id generation_id assignments s none = ran (refused group_id_not_found) s
sync_in group_id member_id generation_id assignments s (some g) =
    if generation_id == g.generation_id
    then (if is_completing g.state
        then sync_with group_id member_id assignments g s
        else ran (refused rebalance_in_progress) s)
    else ran (refused illegal_generation) s

-- SyncGroup; `assignments` is none where the map is nil.
unfoldable pub sync_group : ℕ → ℕ → ℕ → Option (Assoc (List ℕ)) → GroupStore → Ran
sync_group group_id member_id generation_id assignments s =
    sync_in group_id member_id generation_id assignments s (lookup group_id s.groups)

abbrev pub timeout_in : ℕ → ℕ → GroupStore → Option GroupMeta → Ran
timeout_in group_id expected_generation s none = ran done s
timeout_in group_id expected_generation s (some g) =
    if g.generation_id == expected_generation
    then after_barrier group_id done s
        (maybe_close_join_barrier (record g { members = keep_joined g.pending_joins g.members }))
    else ran done s

-- onRebalanceTimeout, the rebalance timer's function.
unfoldable pub on_rebalance_timeout : ℕ → ℕ → GroupStore → Ran
on_rebalance_timeout group_id expected_generation s =
    timeout_in group_id expected_generation s (lookup group_id s.groups)

abbrev pub collect_in : ℕ → GroupStore → Option GroupMeta → GroupStore
collect_in group_id s none = s
collect_in group_id s (some g) =
    if is_dead g.state then record s { groups = erase group_id s.groups } else s

-- The function of scheduleGroupCleanup's timer.
unfoldable pub collect_group : ℕ → GroupStore → GroupStore
collect_group group_id s = collect_in group_id s (lookup group_id s.groups)
