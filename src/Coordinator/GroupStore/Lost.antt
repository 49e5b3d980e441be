-- ===== src/Coordinator/GroupStore/Lost.antt =====
-- Joins that arrive while a group awaits its leader's assignments.
use kaf_go.Base.{
  ℕ, suc, ◌≤◌, ◌<◌, ◌≡◌, ◌∙◌, inl, inr, refl, ap, arith, true, false, List, [], ◌∷◌, ◌++◌, Option,
  some,
}
use kaf_go.Base.{◌==◌}
use kaf_go.Base.Assoc.{lookup, insert}
use kaf_go.Coordinator.Group.{
  GroupState, completing_rebalance, GroupMeta, Answer, is_completing, is_preparing, is_resting,
  maybe_close_join_barrier,
}
use kaf_go.Coordinator.Group.Channels.{Unsent, LostIn, Unsent-append}
use kaf_go.Coordinator.GroupStore.{
  GroupStore, new_group_store, channel, Ran, ran, after_barrier, JoinRequest, with_member,
  found_or_new_group, enter, join_group,
}
use kaf_go.Coordinator.GroupStore.Steps.{Reach, here, next, Each-insert}
use kaf_go.Coordinator.GroupStore.Moves.{Lost, Step-Moves}

-- A channel that is not yet given out is lost.
Reach-fresh : {s : GroupStore} → Reach new_group_store s → (c : ℕ) → s.next_channel ≤ c → Lost c s
Reach-fresh here c le = record { unsent = tt; groups = no_groups }
  where
    no_groups : (k : ℕ) (g : GroupMeta) → lookup k [] ≡ some g → LostIn c g
    no_groups k g e = unfold lookup in cc
Reach-fresh (next r st) c le =
    let m = Step-Moves st in m.loses c (inr le) (Reach-fresh r c (omega (arith, m.grows)))

-- One that is given out and lost stays so.
Reach-Lost :
    {s t : GroupStore}
    → Reach s t
    → (c : ℕ) → c < s.next_channel
    → Lost c s
    → (c < t.next_channel) × Lost c t
Reach-Lost here c lt h = (lt, h)
Reach-Lost (next r st) c lt h =
    let before = Reach-Lost r c lt h in
    let m = Step-Moves st in (omega (arith, m.grows, before.0), m.loses c (inl before.0) before.1)

module _ (g : GroupMeta) (completing : is_completing g.state ≡ true) where
  completing_rests :
      (st : GroupState)
      → is_completing st ≡ true
      → (is_resting st ≡ false) × (is_preparing st ≡ false)
  completing_rests completing_rebalance e = (refl, refl)
  completing_rests _ e = cc

  joined_late : JoinRequest → ℕ → GroupMeta
  joined_late r c =
      let g' = with_member r g in
      record g' {
        pending_joins = g'.pending_joins ++ (record { member_id = r.member_id; channel = c } ∷ []);
      }

  enter-late : (r : JoinRequest) (c : ℕ) → enter r c g ≡ joined_late r c
  unfolding enter joined_late
  enter-late r c = rw (completing_rests g.state completing).0 refl

  barrier-late :
      (r : JoinRequest) (c : ℕ)
      → maybe_close_join_barrier (enter r c g) ≡ some (joined_late r c, [])
  unfolding maybe_close_join_barrier joined_late
  barrier-late r c =
      ap maybe_close_join_barrier (enter-late r c) ∙ rw (completing_rests g.state completing).1 refl

  late-Lost : (r : JoinRequest) (c : ℕ) → LostIn c g → LostIn c (joined_late r c)
  unfolding joined_late
  late-Lost r c h = record {
    joins = λ e. (let other = (completing_rests g.state completing).1 in cc);
    syncs = h.syncs;
  }

-- In a reachable store, a JoinGroup of a named member to a group that awaits the assignments of its
-- leader gives a channel on which nothing is ever sent, whatever the members and the timers do after.
pub join_in_completing_lost :
    (s : GroupStore) (r : JoinRequest) (g : GroupMeta)
    → Reach new_group_store s
    → lookup r.group_id s.groups ≡ some g
    → is_completing g.state ≡ true
    → (r.member_id == 0) ≡ false
    → (t : GroupStore) × (join_group r s ≡ ran (channel s.next_channel) t)
      × ((u : GroupStore) → Reach t u → Unsent s.next_channel u.sent)
unfolding join_group
join_in_completing_lost s r g reach e completing named = (
  t,
  rw named (ap entered e ∙ ap barred (barrier-late g completing r s.next_channel)),
  λ u later. (Reach-Lost later s.next_channel (omega arith) lost).1.unsent,
)
  where
    barred : Option (GroupMeta × List (ℕ × Answer)) → Ran
    barred =
        after_barrier r.group_id (channel s.next_channel)
          (record s { next_channel = suc s.next_channel })

    entered : Option GroupMeta → Ran
    entered o = barred (maybe_close_join_barrier (enter r s.next_channel (found_or_new_group r o)))

    t : GroupStore
    t = record {
      groups = insert r.group_id (joined_late g completing r s.next_channel) s.groups;
      sent = s.sent ++ [];
      next_channel = suc s.next_channel;
    }

    fresh : Lost s.next_channel s
    fresh = Reach-fresh reach s.next_channel (omega arith)

    lost : Lost s.next_channel t
    lost = record {
      unsent = Unsent-append s.next_channel s.sent [] fresh.unsent tt;
      groups =
          Each-insert (LostIn s.next_channel) r.group_id _ s.groups
            (late-Lost g completing r s.next_channel (fresh.groups r.group_id g e)) fresh.groups;
    }
