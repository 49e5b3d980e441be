-- ===== src/Coordinator/GroupStore/Invariant.antt =====
-- What every group keeps, whatever the members and the timers do.
use kaf_go.Base.{ℕ, ◌≡◌, inl, inr, refl, true, false, List, [], ◌∷◌, ◌++◌, Option, none, some}
use kaf_go.Base.{◌==◌, Bool-cases}
use kaf_go.Base.Assoc.{Assoc, lookup}
use kaf_go.Coordinator.Group.{
  GroupMember, GroupMeta, GroupState, stable, completing_rebalance, is_completing, is_dead,
  maybe_close_join_barrier, keep_joined,
}
use kaf_go.Coordinator.Group.Sound.{
  IsSound, new_group-IsSound, maybe_close_join_barrier-IsSound, enter-IsSound,
  without_member-IsSound, keep_joined-IsSound,
}
use kaf_go.Coordinator.GroupStore.{
  GroupStore, new_group_store, JoinRequest, found_or_new_group, enter, join_group, without_member,
  leave_member, leave_in, leave_group, evict_found, evict_in, evict_member, sync_group, sync_in,
  sync_with, sync_leader, sync_follower, timeout_in, on_rebalance_timeout, collect_in,
  collect_group,
}
use kaf_go.Coordinator.GroupStore.Steps.{
  Step, join, leave, sync, evict, timeout, collect, Reach, here, next, Each, Leaves, Leaves-ran,
  Each-insert, Each-erase, Each-after_barrier,
}

found_or_new-IsSound :
    (r : JoinRequest) (o : Option GroupMeta)
    → ((g : GroupMeta) → o ≡ some g → IsSound g)
    → IsSound (found_or_new_group r o)
found_or_new-IsSound r none h = new_group-IsSound r.group_id r.protocol_name
found_or_new-IsSound r (some g) h = h g refl

join-IsSound :
    (r : JoinRequest) (s : GroupStore) → Each IsSound s → Leaves (Each IsSound) (join_group r s)
unfolding join_group
join-IsSound r s h =
    let g = found_or_new_group r (lookup r.group_id s.groups) in
    let sound = found_or_new-IsSound r (lookup r.group_id s.groups) (h r.group_id) in
    elim (Bool-cases (r.member_id == 0)) [
      | inl nameless ↦ rw nameless (Each-insert IsSound r.group_id g s.groups sound h)
      | inr named ↦ rw named (
          Each-after_barrier IsSound r.group_id _ _
            (maybe_close_join_barrier (enter r s.next_channel g))
            (maybe_close_join_barrier-IsSound (enter r s.next_channel g)
              (enter-IsSound r s.next_channel g sound))
            h)
    ]

module _ (s : GroupStore) (h : Each IsSound s) (group_id : ℕ) where
  leave_in-IsSound :
      (member_id : ℕ) (o : Option GroupMeta)
      → ((g : GroupMeta) → o ≡ some g → IsSound g)
      → Leaves (Each IsSound) (leave_in group_id member_id s o)
  leave_in-IsSound member_id none v = h
  leave_in-IsSound member_id (some g) v = found (lookup member_id g.members)
    where
      found :
          (o : Option GroupMember) → Leaves (Each IsSound) (leave_member group_id member_id g s o)
      found none = h
      found (some m) =
          Each-insert IsSound group_id (without_member member_id g) s.groups
            (without_member-IsSound member_id g (v g refl)) h

  evict_in-IsSound :
      (member_id : ℕ) (o : Option GroupMeta)
      → ((g : GroupMeta) → o ≡ some g → IsSound g)
      → Each IsSound (evict_in group_id member_id s o)
  evict_in-IsSound member_id none v = h
  evict_in-IsSound member_id (some g) v = found (lookup member_id g.members)
    where
      found : (o : Option GroupMember) → Each IsSound (evict_found group_id member_id g s o)
      found none = h
      found (some m) = elim (Bool-cases m.evicted) [
        | inl gone ↦ rw gone h
        | inr present ↦ rw present (
            Each-insert IsSound group_id (without_member member_id g) s.groups
              (without_member-IsSound member_id g (v g refl)) h)
      ]

  timeout_in-IsSound :
      (generation_id : ℕ) (o : Option GroupMeta)
      → ((g : GroupMeta) → o ≡ some g → IsSound g)
      → Leaves (Each IsSound) (timeout_in group_id generation_id s o)
  timeout_in-IsSound generation_id none v = h
  timeout_in-IsSound generation_id (some g) v =
      let kept = record g { members = keep_joined g.pending_joins g.members } in
      elim (Bool-cases (g.generation_id == generation_id)) [
        | inl current ↦ rw current (
            Each-after_barrier IsSound group_id _ s (maybe_close_join_barrier kept)
              (maybe_close_join_barrier-IsSound kept (keep_joined-IsSound g (v g refl))) h)
        | inr other ↦ rw other h
      ]

  sync_follower-IsSound :
      (member_id : ℕ) (g : GroupMeta) (o : Option (Assoc (List ℕ)))
      → is_completing g.state ≡ true
      → IsSound g
      → Leaves (Each IsSound) (sync_follower group_id member_id g s o)
  sync_follower-IsSound member_id g (some assignments) e v = h
  sync_follower-IsSound member_id g none e v = Each-insert IsSound group_id _ s.groups parked h
    where
      parked : IsSound (record g {
        pending_syncs =
            g.pending_syncs ++ (record { member_id = member_id; channel = s.next_channel } ∷ []);
      })
      parked = record {
        joins = v.joins;
        unassigned = v.unassigned;
        syncs = λ c _. cc;
        nobody = v.nobody;
      }

  sync_leader-IsSound :
      (member_id : ℕ) (g : GroupMeta) (assignments : Assoc (List ℕ))
      → is_completing g.state ≡ true
      → IsSound g
      → Leaves (Each IsSound) (sync_leader group_id member_id assignments g s)
  sync_leader-IsSound member_id g assignments e v =
      Each-insert IsSound group_id _ s.groups assigned h
    where
      alive : (st : GroupState) → is_completing st ≡ true → is_dead st ≡ false
      alive completing_rebalance c = refl
      alive _ c = cc

      assigned :
          IsSound
            (record g { leader_assignment = some assignments; pending_syncs = []; state = stable })
      assigned = record {
        joins = λ _. v.joins (alive g.state e);
        unassigned = λ c. cc;
        syncs = λ _ _. refl;
        nobody = λ c. cc;
      }

  sync_in-IsSound :
      (member_id generation_id : ℕ) (assignments : Option (Assoc (List ℕ))) (o : Option GroupMeta)
      → ((g : GroupMeta) → o ≡ some g → IsSound g)
      → Leaves (Each IsSound) (sync_in group_id member_id generation_id assignments s o)
  sync_in-IsSound member_id generation_id assignments none v = h
  sync_in-IsSound member_id generation_id assignments (some g) v =
      elim (Bool-cases (generation_id == g.generation_id)) [
        | inr old ↦ rw old h
        | inl current ↦ elim (Bool-cases (is_completing g.state)) [
          | inr other ↦ rw (current, other) h
          | inl completing ↦ rw (current, completing) (with completing assignments)
        ]
      ]
    where
      with :
          is_completing g.state ≡ true
          → (a : Option (Assoc (List ℕ)))
          → Leaves (Each IsSound) (sync_with group_id member_id a g s)
      with e none = sync_follower-IsSound member_id g g.leader_assignment e (v g refl)
      with e (some a) = elim (Bool-cases (member_id == g.leader_id)) [
        | inl leads ↦ rw leads (sync_leader-IsSound member_id g a e (v g refl))
        | inr follows ↦
            rw follows (sync_follower-IsSound member_id g g.leader_assignment e (v g refl))
      ]

  collect_in-IsSound : (o : Option GroupMeta) → Each IsSound (collect_in group_id s o)
  collect_in-IsSound none = h
  collect_in-IsSound (some g) = elim (Bool-cases (is_dead g.state)) [
    | inl gone ↦ rw gone (Each-erase IsSound group_id s.groups h)
    | inr alive ↦ rw alive h
  ]

Step-IsSound : {s t : GroupStore} → Step s t → Each IsSound s → Each IsSound t
unfolding leave_group evict_member sync_group on_rebalance_timeout collect_group
Step-IsSound (join r s reply t e) h =
    Leaves-ran (Each IsSound) (join_group r s) reply t (join-IsSound r s h) e
Step-IsSound (leave group_id member_id s reply t e) h =
    Leaves-ran (Each IsSound) (leave_in group_id member_id s (lookup group_id s.groups)) reply t
      (leave_in-IsSound s h group_id member_id (lookup group_id s.groups) (h group_id)) e
Step-IsSound (sync group_id member_id generation_id assignments s reply t e) h =
    Leaves-ran (Each IsSound)
      (sync_in group_id member_id generation_id assignments s (lookup group_id s.groups)) reply t
      (sync_in-IsSound s h group_id member_id generation_id assignments (lookup group_id s.groups)
        (h group_id))
      e
Step-IsSound (evict group_id member_id s) h =
    evict_in-IsSound s h group_id member_id (lookup group_id s.groups) (h group_id)
Step-IsSound (timeout group_id generation_id s reply t e) h =
    Leaves-ran (Each IsSound) (timeout_in group_id generation_id s (lookup group_id s.groups)) reply
      t (timeout_in-IsSound s h group_id generation_id (lookup group_id s.groups) (h group_id)) e
Step-IsSound (collect group_id s) h = collect_in-IsSound s h group_id (lookup group_id s.groups)

Reach-IsSound : {s t : GroupStore} → Each IsSound s → Reach s t → Each IsSound t
Reach-IsSound h here = h
Reach-IsSound h (next r st) = Step-IsSound st (Reach-IsSound h r)

-- After any calls of the group methods and any firing of the timers, every group is sound: those
-- whose join is pending are its members unless it is dead, no assignment of an earlier generation is
-- left while it rebalances, syncs are pending only while the leader's is awaited or in a dead group,
-- and an empty or dead group has no members.
pub reachable-IsSound :
    (s : GroupStore) (group_id : ℕ) (g : GroupMeta)
    → Reach new_group_store s
    → lookup group_id s.groups ≡ some g
    → IsSound g
reachable-IsSound s group_id g r e = Reach-IsSound absurd_lookup r group_id g e
  where
    absurd_lookup : (k : ℕ) (g' : GroupMeta) → lookup k [] ≡ some g' → IsSound g'
    absurd_lookup k g' e' = unfold lookup in cc
