-- ===== src/Coordinator/GroupStore/Moves.antt =====
-- What each operation of the group store does to the channels.
use kaf_go.Base.{ℕ, suc, ◌≤◌, ◌<◌, ◌≡◌, ◌⊎◌, inl, inr, refl, arith, false, List, Option, none, some}
use kaf_go.Base.{◌==◌, Bool-cases}
use kaf_go.Base.Assoc.{Assoc, lookup}
use kaf_go.Coordinator.Group.{
  GroupMember, GroupMeta, Answer, is_completing, is_dead, maybe_close_join_barrier, keep_joined,
}
use kaf_go.Coordinator.Group.Channels.{
  Unsent, LostIn, Unsent-append, Unsent-syncs, Syncs-append, ClosedLost,
  maybe_close_join_barrier-Lost, enter-Lost, without_member-Lost, new_group-Lost,
}
use kaf_go.Coordinator.GroupStore.{
  GroupStore, Reply, channel, put_group, after_barrier, JoinRequest, found_or_new_group, enter,
  join_group, without_member, leave_member, leave_in, leave_group, evict_found, evict_in,
  evict_member, sync_group, sync_in, sync_with, sync_follower, timeout_in, on_rebalance_timeout,
  collect_in, collect_group,
}
use kaf_go.Coordinator.GroupStore.Steps.{
  Step, join, leave, sync, evict, timeout, collect, Each, Leaves, Leaves-ran, Each-insert,
  Each-erase,
}

-- Nothing was sent on c, and no group can still answer it.
pub record Lost (c : ℕ) (s : GroupStore) : Type 0 where
  pub unsent : Unsent c s.sent
  pub groups : Each (LostIn c) s

-- What a step does to the channels: none is given back, and one that is lost stays so, if it was
-- given out before or is not yet given out.
pub record Moves (s t : GroupStore) : Type 0 where
  pub grows : s.next_channel ≤ t.next_channel
  pub loses : (c : ℕ) → (c < s.next_channel) ⊎ (t.next_channel ≤ c) → Lost c s → Lost c t

stays : (s : GroupStore) → Moves s s
stays s = record { grows = omega arith; loses = λ c w h. h }

puts :
    (group_id : ℕ) (g : GroupMeta) (s : GroupStore)
    → ((c : ℕ) → Lost c s → LostIn c g)
    → Moves s (put_group group_id g s)
puts group_id g s p = record {
  grows = omega arith;
  loses = λ c w h. record {
    unsent = h.unsent;
    groups = Each-insert (LostIn c) group_id g s.groups (p c h) h.groups;
  };
}

module _ (s : GroupStore) (group_id : ℕ) (reply : Reply) where
  -- A barrier that is tried after `fresh` channels have been given out.
  barrier-Moves :
      (n : ℕ) (o : Option (GroupMeta × List (ℕ × Answer)))
      → s.next_channel ≤ n
      → ((c : ℕ) → (c < s.next_channel) ⊎ (n ≤ c) → Lost c s → ClosedLost c o)
      → Leaves (Moves s) (after_barrier group_id reply (record s { next_channel = n }) o)
  barrier-Moves n none le k = tt
  barrier-Moves n (some (g, answers)) le k = record {
    grows = le;
    loses = λ c w h. record {
      unsent = Unsent-append c s.sent answers h.unsent (k c w h).1;
      groups = Each-insert (LostIn c) group_id g s.groups (k c w h).0 h.groups;
    };
  }

other_channel : (n c : ℕ) → (c < n) ⊎ (suc n ≤ c) → (n == c) ≡ false
other_channel n c (inl lt) = ground arith
other_channel n c (inr gt) = ground arith

found_or_new-Lost :
    (c : ℕ) (r : JoinRequest) (o : Option GroupMeta)
    → ((g : GroupMeta) → o ≡ some g → LostIn c g)
    → LostIn c (found_or_new_group r o)
found_or_new-Lost c r none h = new_group-Lost c r.group_id r.protocol_name
found_or_new-Lost c r (some g) h = h g refl

join-Moves : (r : JoinRequest) (s : GroupStore) → Leaves (Moves s) (join_group r s)
unfolding join_group
join-Moves r s =
    let g = found_or_new_group r (lookup r.group_id s.groups) in
    elim (Bool-cases (r.member_id == 0)) [
      | inl nameless ↦ rw nameless (
          puts r.group_id g s
            (λ c h. found_or_new-Lost c r (lookup r.group_id s.groups) (h.groups r.group_id)))
      | inr named ↦ rw named (
          barrier-Moves s r.group_id (channel s.next_channel) (suc s.next_channel)
            (maybe_close_join_barrier (enter r s.next_channel g)) (omega arith)
            (λ c w h. maybe_close_join_barrier-Lost c (enter r s.next_channel g) (
              enter-Lost r c s.next_channel g (other_channel s.next_channel c w)
                (found_or_new-Lost c r (lookup r.group_id s.groups) (h.groups r.group_id)))))
    ]

module _ (s : GroupStore) (group_id : ℕ) where
  abbrev Found : Option GroupMeta → Type 0
  Found o = (c : ℕ) → Lost c s → (g : GroupMeta) → o ≡ some g → LostIn c g

  removes :
      (member_id : ℕ) (g : GroupMeta)
      → Found (some g)
      → Moves s (put_group group_id (without_member member_id g) s)
  removes member_id g v =
      puts group_id (without_member member_id g) s
        (λ c h. without_member-Lost c member_id g (v c h g refl))

  leave_in-Moves :
      (member_id : ℕ) (o : Option GroupMeta)
      → Found o
      → Leaves (Moves s) (leave_in group_id member_id s o)
  leave_in-Moves member_id none v = stays s
  leave_in-Moves member_id (some g) v = found (lookup member_id g.members)
    where
      found : (o : Option GroupMember) → Leaves (Moves s) (leave_member group_id member_id g s o)
      found none = stays s
      found (some m) = removes member_id g v

  evict_in-Moves :
      (member_id : ℕ) (o : Option GroupMeta) → Found o → Moves s (evict_in group_id member_id s o)
  evict_in-Moves member_id none v = stays s
  evict_in-Moves member_id (some g) v = found (lookup member_id g.members)
    where
      found : (o : Option GroupMember) → Moves s (evict_found group_id member_id g s o)
      found none = stays s
      found (some m) = elim (Bool-cases m.evicted) [
        | inl gone ↦ rw gone (stays s)
        | inr present ↦ rw present (removes member_id g v)
      ]

  timeout_in-Moves :
      (generation_id : ℕ) (o : Option GroupMeta)
      → Found o
      → Leaves (Moves s) (timeout_in group_id generation_id s o)
  timeout_in-Moves generation_id none v = stays s
  timeout_in-Moves generation_id (some g) v =
      let kept = record g { members = keep_joined g.pending_joins g.members } in
      elim (Bool-cases (g.generation_id == generation_id)) [
        | inl current ↦ rw current (
            barrier-Moves s group_id _ s.next_channel (maybe_close_join_barrier kept) (omega arith)
              (λ c w h.
                let l = v c h g refl in
                maybe_close_join_barrier-Lost c kept (record { joins = l.joins; syncs = l.syncs })))
        | inr other ↦ rw other (stays s)
      ]

  sync_follower-Moves :
      (member_id : ℕ) (g : GroupMeta) (o : Option (Assoc (List ℕ)))
      → Found (some g)
      → Leaves (Moves s) (sync_follower group_id member_id g s o)
  sync_follower-Moves member_id g (some assignments) v = record {
    grows = omega arith;
    loses = λ c w h. record {
      unsent = Unsent-append c s.sent _ h.unsent (other_channel s.next_channel c w, tt);
      groups = h.groups;
    };
  }
  sync_follower-Moves member_id g none v = record {
    grows = omega arith;
    loses = λ c w h.
        let l = v c h g refl in
        record {
          unsent = h.unsent;
          groups =
              Each-insert (LostIn c) group_id _ s.groups
                (record {
                  joins = l.joins;
                  syncs =
                      Syncs-append c g.pending_syncs _ l.syncs (other_channel s.next_channel c w);
                })
                h.groups;
        };
  }

  sync_with-Moves :
      (member_id : ℕ) (g : GroupMeta) (a : Option (Assoc (List ℕ)))
      → Found (some g)
      → Leaves (Moves s) (sync_with group_id member_id a g s)
  sync_with-Moves member_id g none v = sync_follower-Moves member_id g g.leader_assignment v
  sync_with-Moves member_id g (some a) v = elim (Bool-cases (member_id == g.leader_id)) [
    | inr follows ↦ rw follows (sync_follower-Moves member_id g g.leader_assignment v)
    | inl leads ↦ rw leads (record {
      grows = omega arith;
      loses = λ c w h.
          let l = v c h g refl in
          record {
            unsent =
                Unsent-append c s.sent _ h.unsent
                  (other_channel s.next_channel c w, Unsent-syncs c a g.pending_syncs l.syncs);
            groups =
                Each-insert (LostIn c) group_id _ s.groups (record { joins = λ e. cc; syncs = tt })
                  h.groups;
          };
    })
  ]

  sync_in-Moves :
      (member_id generation_id : ℕ) (assignments : Option (Assoc (List ℕ))) (o : Option GroupMeta)
      → Found o
      → Leaves (Moves s) (sync_in group_id member_id generation_id assignments s o)
  sync_in-Moves member_id generation_id assignments none v = stays s
  sync_in-Moves member_id generation_id assignments (some g) v =
      elim (Bool-cases (generation_id == g.generation_id)) [
        | inr old ↦ rw old (stays s)
        | inl current ↦ elim (Bool-cases (is_completing g.state)) [
          | inr other ↦ rw (current, other) (stays s)
          | inl completing ↦ rw (current, completing) (sync_with-Moves member_id g assignments v)
        ]
      ]

  collect_in-Moves : (o : Option GroupMeta) → Moves s (collect_in group_id s o)
  collect_in-Moves none = stays s
  collect_in-Moves (some g) = elim (Bool-cases (is_dead g.state)) [
    | inr alive ↦ rw alive (stays s)
    | inl gone ↦ rw gone (record {
      grows = omega arith;
      loses = λ c w h. record {
        unsent = h.unsent;
        groups = Each-erase (LostIn c) group_id s.groups h.groups;
      };
    })
  ]

pub Step-Moves : {s t : GroupStore} → Step s t → Moves s t
unfolding leave_group evict_member sync_group on_rebalance_timeout collect_group
Step-Moves (join r s reply t e) = Leaves-ran (Moves s) (join_group r s) reply t (join-Moves r s) e
Step-Moves (leave group_id member_id s reply t e) =
    Leaves-ran (Moves s) (leave_in group_id member_id s (lookup group_id s.groups)) reply t
      (leave_in-Moves s group_id member_id (lookup group_id s.groups) (λ c h. h.groups group_id)) e
Step-Moves (sync group_id member_id generation_id assignments s reply t e) =
    Leaves-ran (Moves s)
      (sync_in group_id member_id generation_id assignments s (lookup group_id s.groups)) reply t
      (sync_in-Moves s group_id member_id generation_id assignments (lookup group_id s.groups)
        (λ c h. h.groups group_id))
      e
Step-Moves (evict group_id member_id s) =
    evict_in-Moves s group_id member_id (lookup group_id s.groups) (λ c h. h.groups group_id)
Step-Moves (timeout group_id generation_id s reply t e) =
    Leaves-ran (Moves s) (timeout_in group_id generation_id s (lookup group_id s.groups)) reply t
      (timeout_in-Moves s group_id generation_id (lookup group_id s.groups)
        (λ c h. h.groups group_id))
      e
Step-Moves (collect group_id s) = collect_in-Moves s group_id (lookup group_id s.groups)
