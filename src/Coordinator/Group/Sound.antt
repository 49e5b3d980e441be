-- ===== src/Coordinator/Group/Sound.antt =====
-- What a group keeps under the operations on it.
use kaf_go.Base.{
  ℕ, ◌≡◌, inl, inr, refl, ap, arith, Bool, true, false, List, [], ◌∷◌, ◌++◌, Option, none, some,
}
use kaf_go.Base.{◌==◌, if◌then◌else◌, Bool-cases, length, All}
use kaf_go.Base.Assoc.{Assoc, lookup, insert, erase, has, has-insert}
use kaf_go.Coordinator.GroupStore.{JoinRequest, joining_member, enter, without_member}
use kaf_go.Coordinator.Group.{
  GroupState, empty, preparing_rebalance, completing_rebalance, stable, dead, is_preparing,
  is_completing, is_resting, is_dead, GroupMember, PendingJoin, Answer, GroupMeta, new_group,
  transition_to_prepare_rebalance, close_barrier, maybe_close_join_barrier, has_joined, keep_joined,
}

abbrev pub is_rebalancing : GroupState → Bool
is_rebalancing preparing_rebalance = true
is_rebalancing completing_rebalance = true
is_rebalancing _ = false

abbrev pub is_idle : GroupState → Bool
is_idle empty = true
is_idle dead = true
is_idle _ = false

abbrev pub AllMembers : Assoc GroupMember → List PendingJoin → Type 0
AllMembers members = All (λ p. has p.member_id members ≡ true)

-- What a group keeps: those whose join is pending are members of it, no assignment of an earlier
-- generation is left while it rebalances, syncs are pending only while the leader's is awaited, and
-- an empty or dead group has no members.
pub record IsSound (g : GroupMeta) : Type 0 where
  pub joins : is_dead g.state ≡ false → AllMembers g.members g.pending_joins
  pub unassigned : is_rebalancing g.state ≡ true → g.leader_assignment ≡ none
  pub syncs : is_completing g.state ≡ false → is_dead g.state ≡ false → g.pending_syncs ≡ []
  pub nobody : is_idle g.state ≡ true → g.members ≡ []

pub new_group-IsSound : (group_id protocol_name : ℕ) → IsSound (new_group group_id protocol_name)
new_group-IsSound group_id protocol_name = record {
  joins = λ _. tt;
  unassigned = λ _. refl;
  syncs = λ _ _. refl;
  nobody = λ _. refl;
}

pub transition-IsSound : (g : GroupMeta) → IsSound (transition_to_prepare_rebalance g)
unfolding transition_to_prepare_rebalance
transition-IsSound g = record {
  joins = λ _. tt;
  unassigned = λ _. refl;
  syncs = λ _ _. refl;
  nobody = λ e. cc;
}

lookup-keep_joined :
    (k : ℕ) (joins : List PendingJoin) (members : Assoc GroupMember)
    → lookup k (keep_joined joins members) ≡ (if has_joined k joins then lookup k members else none)
unfolding lookup keep_joined
lookup-keep_joined k joins [] = ground arith
lookup-keep_joined k joins ((id, m) ∷ members) = elim (Bool-cases (id == k)) [
  | inl e ↦ ground (arith, lookup-keep_joined k joins members, same id k e)
  | inr e ↦ ground (arith, lookup-keep_joined k joins members)
]
  where
    same : (a b : ℕ) → (a == b) ≡ true → has_joined a joins ≡ has_joined b joins
    same a b e = ap (λ x. has_joined x joins) (ground arith)

-- The members that have joined survive the rebalance timeout.
pub keep_joined-AllMembers :
    (joins later : List PendingJoin) (members : Assoc GroupMember)
    → ((k : ℕ) → has_joined k later ≡ true → has_joined k joins ≡ true)
    → AllMembers members later
    → AllMembers (keep_joined joins members) later
keep_joined-AllMembers joins [] members inside h = tt
keep_joined-AllMembers joins (p ∷ later) members inside h = (
  ground (
    arith,
    lookup-keep_joined p.member_id joins members,
    inside p.member_id (unfold has_joined in ground arith),
    h.0,
  ),
  keep_joined-AllMembers joins later members
      (λ k e. inside k (unfold has_joined in ground (arith, e))) h.1,
)

-- The group behind the barrier, where it does not panic.
abbrev pub Closed : (GroupMeta → Type 0) → Option (GroupMeta × List (ℕ × Answer)) → Type 0
Closed P none = Unit
Closed P (some (g, answers)) = P g

close_barrier-IsSound :
    (g : GroupMeta) (joins : List PendingJoin)
    → is_preparing g.state ≡ true
    → IsSound g
    → Closed IsSound (close_barrier g joins)
close_barrier-IsSound g [] e h = tt
close_barrier-IsSound g (first ∷ joins) e h = record {
  joins = λ _. tt;
  unassigned = λ _. h.unassigned (preparing_rebalances g.state e);
  syncs = λ c _. cc;
  nobody = λ c. cc;
}
  where
    preparing_rebalances : (st : GroupState) → is_preparing st ≡ true → is_rebalancing st ≡ true
    preparing_rebalances preparing_rebalance e = refl
    preparing_rebalances completing_rebalance e = refl
    preparing_rebalances empty e = cc
    preparing_rebalances stable e = cc
    preparing_rebalances dead e = cc

pub maybe_close_join_barrier-IsSound :
    (g : GroupMeta) → IsSound g → Closed IsSound (maybe_close_join_barrier g)
unfolding maybe_close_join_barrier
maybe_close_join_barrier-IsSound g h = elim (Bool-cases (is_preparing g.state)) [
  | inr other ↦ rw other h
  | inl preparing ↦ elim (Bool-cases (length g.pending_joins == length g.members)) [
    | inl all ↦ rw (preparing, all) (close_barrier-IsSound g g.pending_joins preparing h)
    | inr waits ↦ rw (preparing, waits) h
  ]
]

AllMembers-insert :
    (k : ℕ) (m : GroupMember) (members : Assoc GroupMember) (joins : List PendingJoin)
    → AllMembers members joins
    → AllMembers (insert k m members) joins
AllMembers-insert k m members [] h = tt
AllMembers-insert k m members (p ∷ joins) h = (
  ground (arith, has-insert k p.member_id m members, h.0),
  AllMembers-insert k m members joins h.1,
)

AllMembers-append :
    (members : Assoc GroupMember) (joins : List PendingJoin) (p : PendingJoin)
    → AllMembers members joins
    → has p.member_id members ≡ true
    → AllMembers members (joins ++ (p ∷ []))
AllMembers-append members [] p h e = (e, tt)
AllMembers-append members (q ∷ joins) p h e = (h.0, AllMembers-append members joins p h.1 e)

resting_or_busy :
    (st : GroupState) → is_resting st ≡ false → (is_dead st ≡ false) × (is_idle st ≡ false)
resting_or_busy preparing_rebalance e = (refl, refl)
resting_or_busy completing_rebalance e = (refl, refl)
resting_or_busy empty e = cc
resting_or_busy stable e = cc
resting_or_busy dead e = cc

pub enter-IsSound : (r : JoinRequest) (c : ℕ) (g : GroupMeta) → IsSound g → IsSound (enter r c g)
unfolding enter transition_to_prepare_rebalance
enter-IsSound r c g h =
    let new = joining_member r (lookup r.member_id g.members) in
    let entered : has r.member_id (insert r.member_id new g.members) ≡ true =
      ground (arith, has-insert r.member_id r.member_id new g.members) in
    elim (Bool-cases (is_resting g.state)) [
      | inl rests ↦ rw rests (record {
        joins = λ _. (entered, tt);
        unassigned = λ _. refl;
        syncs = λ _ _. refl;
        nobody = λ e. cc;
      })
      | inr busy ↦
          let (alive, occupied) = resting_or_busy g.state busy in
          rw busy (record {
            joins = λ _.
                AllMembers-append (insert r.member_id new g.members) g.pending_joins _
                  (AllMembers-insert r.member_id new g.members g.pending_joins (h.joins alive))
                  entered;
            unassigned = h.unassigned;
            syncs = h.syncs;
            nobody = λ e. cc;
          })
    ]

length_zero {ℓ} : {A : Type ℓ} (xs : List A) → (length xs == 0) ≡ true → xs ≡ []
length_zero [] e = refl
length_zero (x ∷ xs) e = ground arith

pub without_member-IsSound :
    (member_id : ℕ) (g : GroupMeta) → IsSound g → IsSound (without_member member_id g)
unfolding without_member
without_member-IsSound member_id g h = elim (Bool-cases (length (erase member_id g.members) == 0)) [
  | inl last ↦ rw last (record {
    joins = λ e. cc;
    unassigned = λ e. cc;
    syncs = λ _ e. cc;
    nobody = λ _. length_zero (erase member_id g.members) last;
  })
  | inr others ↦ rw others (transition-IsSound (record g { members = erase member_id g.members }))
]

keep_nobody :
    (joins : List PendingJoin) (members : Assoc GroupMember)
    → members ≡ []
    → keep_joined joins members ≡ []
unfolding keep_joined
keep_nobody joins members e = rw e refl

pub keep_joined-IsSound :
    (g : GroupMeta)
    → IsSound g
    → IsSound (record g { members = keep_joined g.pending_joins g.members })
keep_joined-IsSound g h = record {
  joins = λ e.
      keep_joined-AllMembers g.pending_joins g.pending_joins g.members (λ k e'. e') (h.joins e);
  unassigned = h.unassigned;
  syncs = h.syncs;
  nobody = λ e. keep_nobody g.pending_joins g.members (h.nobody e);
}
