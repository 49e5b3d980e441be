-- ===== src/Coordinator/Group.antt =====
-- A consumer group of coordinator/group_store.go: its members, its generation, and the join barrier.
-- A group, member or protocol name is an id, 0 for the empty string; the code only compares them.
-- A channel is a number. Timers stand in GroupStore as steps that can come at any time.
pub mod Sound
pub mod Channels
use kaf_go.Base.{
  ℕ, suc, ◌+◌, ◌*◌, ◌%◌, ◌^◌, Bool, true, false, ◌||◌, List, [], ◌∷◌, ◌++◌, Option, none, some,
}
use kaf_go.Base.{◌==◌, if◌then◌else◌, slt64, two32, length, map}
use kaf_go.Base.Assoc.{Assoc, insert}

pub data GroupState : Type 0 where
  empty preparing_rebalance completing_rebalance stable dead : GroupState

abbrev pub is_preparing : GroupState → Bool
is_preparing preparing_rebalance = true
is_preparing _ = false

abbrev pub is_completing : GroupState → Bool
is_completing completing_rebalance = true
is_completing _ = false

-- The states in which a join starts a rebalance.
abbrev pub is_resting : GroupState → Bool
is_resting stable = true
is_resting empty = true
is_resting dead = true
is_resting _ = false

abbrev pub is_dead : GroupState → Bool
is_dead dead = true
is_dead _ = false

-- Timeouts are int64 patterns, in nanoseconds.
pub record GroupMember : Type 0 where
  pub member_id : ℕ
  pub group_instance_id : ℕ
  pub session_timeout : ℕ
  pub rebalance_timeout : ℕ
  pub metadata : List ℕ
  pub evicted : Bool

pub record PendingJoin : Type 0 where
  pub member_id : ℕ
  pub channel : ℕ

pub record PendingSync : Type 0 where
  pub member_id : ℕ
  pub channel : ℕ

pub record JoinMember : Type 0 where
  pub member_id : ℕ
  pub group_instance_id : ℕ
  pub metadata : List ℕ

pub record JoinResult : Type 0 where
  pub generation_id : ℕ
  pub leader_id : ℕ
  pub protocol_name : ℕ
  pub members : List JoinMember

-- What is sent on a channel.
pub data Answer : Type 0 where
  joined : JoinResult → Answer
  synced : List ℕ → Answer

-- `rebalance_timer` is the duration that the timer was last set to.
pub record GroupMeta : Type 0 where
  pub group_id : ℕ
  pub state : GroupState
  pub generation_id : ℕ
  pub leader_id : ℕ
  pub protocol_name : ℕ
  pub members : Assoc GroupMember
  pub pending_joins : List PendingJoin
  pub pending_syncs : List PendingSync
  pub leader_assignment : Option (Assoc (List ℕ))
  pub rebalance_timer : Option ℕ

-- The group that JoinGroup creates.
abbrev pub new_group : ℕ → ℕ → GroupMeta
new_group group_id protocol_name = record {
  group_id = group_id;
  state = empty;
  generation_id = 0;
  leader_id = 0;
  protocol_name = protocol_name;
  members = [];
  pending_joins = [];
  pending_syncs = [];
  leader_assignment = none;
  rebalance_timer = none;
}

-- The loop of maxRebalanceTimeout.
unfoldable pub max_timeout_loop : ℕ → Assoc GroupMember → ℕ
max_timeout_loop longest [] = longest
max_timeout_loop longest ((id, m) ∷ members) =
    max_timeout_loop (if slt64 longest m.rebalance_timeout then m.rebalance_timeout else longest)
      members

unfoldable pub max_rebalance_timeout : GroupMeta → ℕ
unfolding max_timeout_loop
max_rebalance_timeout g = max_timeout_loop (3 * 10 ^ 9) g.members

unfoldable pub transition_to_prepare_rebalance : GroupMeta → GroupMeta
unfolding max_rebalance_timeout
transition_to_prepare_rebalance g = record g {
  state = preparing_rebalance;
  generation_id = (g.generation_id + 1) % two32;
  leader_id = 0;
  protocol_name = 0;
  leader_assignment = none;
  pending_joins = [];
  pending_syncs = [];
  rebalance_timer = some (max_rebalance_timeout g);
}

abbrev pub join_member : ℕ × GroupMember → JoinMember
join_member (id, m) = record {
  member_id = m.member_id;
  group_instance_id = m.group_instance_id;
  metadata = m.metadata;
}

-- The id of JoinGroupProtocolNameRoundrobin.
abbrev pub round_robin : ℕ
round_robin = 1

-- The result for a pending join, under the leader and the generation of the group.
abbrev pub join_result : GroupMeta → List JoinMember → PendingJoin → ℕ × Answer
join_result g all_members p = (
  p.channel,
  joined (record {
    generation_id = g.generation_id;
    leader_id = g.leader_id;
    protocol_name = g.protocol_name;
    members = if p.member_id == g.leader_id then all_members else [];
  }),
)

-- The first to join leads.
abbrev pub led_by : PendingJoin → GroupMeta → GroupMeta
led_by first g = record g {
  leader_id = first.member_id;
  protocol_name = round_robin;
  state = completing_rebalance;
}

abbrev pub close_barrier : GroupMeta → List PendingJoin → Option (GroupMeta × List (ℕ × Answer))
close_barrier g [] = none
close_barrier g (first ∷ joins) = some (
  record (led_by first g) { pending_joins = [] },
  map (join_result (led_by first g) (map join_member g.members)) (first ∷ joins),
)

-- maybeCloseJoinBarrier: the group and what is sent; none is the panic of pendingJoins[0].
unfoldable pub maybe_close_join_barrier : GroupMeta → Option (GroupMeta × List (ℕ × Answer))
maybe_close_join_barrier g =
    if is_preparing g.state
    then (if length g.pending_joins == length g.members
        then close_barrier g g.pending_joins
        else some (g, []))
    else some (g, [])

-- joinMemberIds[memberId], over the pending joins.
unfoldable pub has_joined : ℕ → List PendingJoin → Bool
has_joined member_id [] = false
has_joined member_id (p ∷ joins) =
    let rest = has_joined member_id joins in if p.member_id == member_id then true else rest

-- The loop of onRebalanceTimeout that deletes the members that have not joined.
unfoldable pub keep_joined : List PendingJoin → Assoc GroupMember → Assoc GroupMember
unfolding has_joined
keep_joined joins [] = []
keep_joined joins ((id, m) ∷ members) =
    let rest = keep_joined joins members in if has_joined id joins then (id, m) ∷ rest else rest
