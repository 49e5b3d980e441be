-- ===== src/Coordinator/GroupStore/Sync.antt =====
-- SyncGroup calls while a group awaits its leader's assignments, and behind the leader's.
use kaf_go.Base.{ℕ, suc, ◌≡◌, ◌⊎◌, false, List, [], ◌∷◌, ◌++◌, Option, none, some, map}
use kaf_go.Base.{◌==◌}
use kaf_go.Base.Assoc.{Assoc, lookup, insert}
use kaf_go.Coordinator.Group.{synced, PendingSync, GroupMeta, stable}
use kaf_go.Coordinator.GroupStore.{
  GroupStore, Reply, Ran, panics, channel, refused, rebalance_in_progress, assigned, sync_answer,
  ran, sync_group,
}

-- While a group awaits the assignments of its leader and none are stored, a SyncGroup of its generation by a member
-- that is not the leader, or by any member without assignments, sends nothing and is added to the pending syncs.
with_sync : ℕ → ℕ → GroupMeta → GroupMeta
with_sync member_id c g = record g {
  pending_syncs = g.pending_syncs ++ (record { member_id = member_id; channel = c } ∷ []);
}

with_pending : ℕ → ℕ → GroupMeta → GroupStore → GroupStore
with_pending group_id member_id g s = record s {
  groups = insert group_id (with_sync member_id s.next_channel g) s.groups;
  next_channel = suc s.next_channel;
}

abbrev pub SyncCall : Type 0
SyncCall = ℕ × Option (Assoc (List ℕ))

abbrev pub then_syncs :
    Ran → (GroupStore → List Reply × GroupStore) → GroupStore → List Reply × GroupStore
then_syncs (ran reply t) rest s = let after = rest t in (reply ∷ after.0, after.1)
then_syncs panics rest s = ([], s)

-- SyncGroup calls of one generation, one after the other: the replies, and the store at the end.
unfoldable pub sync_all : ℕ → ℕ → List SyncCall → GroupStore → List Reply × GroupStore
unfolding sync_group
sync_all group_id generation_id [] s = ([], s)
sync_all group_id generation_id ((member_id, assignments) ∷ calls) s =
    then_syncs (sync_group group_id member_id generation_id assignments s)
      (sync_all group_id generation_id calls) s

-- The replies to the calls that wait, the syncs that are pending for them, and the channel that is next.
abbrev pub waiting_replies : ℕ → List SyncCall → List Reply
waiting_replies n [] = []
waiting_replies n (call ∷ calls) = channel n ∷ waiting_replies (suc n) calls

abbrev pub waiting_syncs : ℕ → List SyncCall → List PendingSync
waiting_syncs n [] = []
waiting_syncs n (call ∷ calls) =
    record { member_id = call.0; channel = n } ∷ waiting_syncs (suc n) calls

abbrev pub next_free : ℕ → List SyncCall → ℕ
next_free n [] = n
next_free n (call ∷ calls) = next_free (suc n) calls

abbrev pub refusals : List SyncCall → List Reply
refusals [] = []
refusals (call ∷ calls) = refused rebalance_in_progress ∷ refusals calls

-- The call brings no assignments, or its member is not the leader.
abbrev pub IsFollower : ℕ → SyncCall → Type 0
IsFollower leader_id call = (call.1 ≡ none) ⊎ ((call.0 == leader_id) ≡ false)

synced_group : Assoc (List ℕ) → GroupMeta → GroupMeta
synced_group assignments g = record g {
  leader_assignment = some assignments;
  pending_syncs = [];
  state = stable;
}

synced_store : ℕ → Assoc (List ℕ) → GroupMeta → GroupStore → GroupStore
synced_store group_id assignments g s = record {
  groups = insert group_id (synced_group assignments g) s.groups;
  sent =
      s.sent
      ++ ((s.next_channel, synced (assigned (lookup g.leader_id assignments)))
          ∷ map (sync_answer assignments) g.pending_syncs);
  next_channel = suc s.next_channel;
}
