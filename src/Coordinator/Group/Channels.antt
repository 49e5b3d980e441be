-- ===== src/Coordinator/Group/Channels.antt =====
-- The channels that a group holds, against one channel c.
use kaf_go.Base.{ℕ, ◌≡◌, inl, inr, true, false, List, [], ◌∷◌, ◌++◌, Option, none, some, map}
use kaf_go.Base.{◌==◌, Bool-cases, length, All}
use kaf_go.Base.Assoc.{Assoc, erase}
use kaf_go.Coordinator.Group.{
  is_preparing, is_resting, PendingJoin, PendingSync, JoinMember, Answer, GroupMeta, new_group,
  transition_to_prepare_rebalance, join_result, join_member, led_by, close_barrier,
  maybe_close_join_barrier,
}
use kaf_go.Coordinator.GroupStore.{JoinRequest, enter, without_member, sync_answer}

-- Nothing was sent on c.
abbrev pub Unsent : ℕ → List (ℕ × Answer) → Type 0
Unsent c = All (λ a. (a.0 == c) ≡ false)

-- c waits for no sync, and for no join that a barrier can still answer.
pub record LostIn (c : ℕ) (g : GroupMeta) : Type 0 where
  pub joins : is_preparing g.state ≡ true → All (λ p. (p.channel == c) ≡ false) g.pending_joins
  pub syncs : All (λ p. (p.channel == c) ≡ false) g.pending_syncs

pub Unsent-append :
    (c : ℕ) (xs ys : List (ℕ × Answer)) → Unsent c xs → Unsent c ys → Unsent c (xs ++ ys)
Unsent-append c [] ys hx hy = hy
Unsent-append c (x ∷ xs) ys hx hy = (hx.0, Unsent-append c xs ys hx.1 hy)

Unsent-joins :
    (c : ℕ) (g : GroupMeta) (all : List JoinMember) (joins : List PendingJoin)
    → All (λ p. (p.channel == c) ≡ false) joins
    → Unsent c (map (join_result g all) joins)
Unsent-joins c g all [] h = tt
Unsent-joins c g all (p ∷ joins) h = (h.0, Unsent-joins c g all joins h.1)

pub Unsent-syncs :
    (c : ℕ) (assignments : Assoc (List ℕ)) (syncs : List PendingSync)
    → All (λ p. (p.channel == c) ≡ false) syncs
    → Unsent c (map (sync_answer assignments) syncs)
Unsent-syncs c assignments [] h = tt
Unsent-syncs c assignments (p ∷ syncs) h = (h.0, Unsent-syncs c assignments syncs h.1)

pub Syncs-append :
    (c : ℕ) (syncs : List PendingSync) (p : PendingSync)
    → All (λ q. (q.channel == c) ≡ false) syncs
    → (p.channel == c) ≡ false
    → All (λ q. (q.channel == c) ≡ false) (syncs ++ (p ∷ []))
Syncs-append c [] p h e = (e, tt)
Syncs-append c (q ∷ syncs) p h e = (h.0, Syncs-append c syncs p h.1 e)

Joins-append :
    (c : ℕ) (joins : List PendingJoin) (p : PendingJoin)
    → All (λ q. (q.channel == c) ≡ false) joins
    → (p.channel == c) ≡ false
    → All (λ q. (q.channel == c) ≡ false) (joins ++ (p ∷ []))
Joins-append c [] p h e = (e, tt)
Joins-append c (q ∷ joins) p h e = (h.0, Joins-append c joins p h.1 e)

-- Behind the barrier c is still lost, and nothing was sent on it.
abbrev pub ClosedLost : ℕ → Option (GroupMeta × List (ℕ × Answer)) → Type 0
ClosedLost c none = Unit
ClosedLost c (some (g, answers)) = LostIn c g × Unsent c answers

close_barrier-Lost :
    (c : ℕ) (g : GroupMeta) (joins : List PendingJoin)
    → All (λ p. (p.channel == c) ≡ false) joins
    → All (λ p. (p.channel == c) ≡ false) g.pending_syncs
    → ClosedLost c (close_barrier g joins)
close_barrier-Lost c g [] h syncs = tt
close_barrier-Lost c g (first ∷ joins) h syncs = (
  record { joins = λ e. cc; syncs = syncs },
  Unsent-joins c (led_by first g) (map join_member g.members) (first ∷ joins) h,
)

pub maybe_close_join_barrier-Lost :
    (c : ℕ) (g : GroupMeta) → LostIn c g → ClosedLost c (maybe_close_join_barrier g)
unfolding maybe_close_join_barrier
maybe_close_join_barrier-Lost c g h = elim (Bool-cases (is_preparing g.state)) [
  | inr other ↦ rw other (h, tt)
  | inl preparing ↦ elim (Bool-cases (length g.pending_joins == length g.members)) [
    | inl all ↦
        rw (preparing, all) (close_barrier-Lost c g g.pending_joins (h.joins preparing) h.syncs)
    | inr waits ↦ rw (preparing, waits) (h, tt)
  ]
]

pub enter-Lost :
    (r : JoinRequest) (c d : ℕ) (g : GroupMeta)
    → (d == c) ≡ false
    → LostIn c g
    → LostIn c (enter r d g)
unfolding enter transition_to_prepare_rebalance
enter-Lost r c d g other h = elim (Bool-cases (is_resting g.state)) [
  | inl rests ↦ rw rests (record { joins = λ _. (other, tt); syncs = tt })
  | inr busy ↦
      rw busy (record {
        joins = λ e. Joins-append c g.pending_joins _ (h.joins e) other;
        syncs = h.syncs;
      })
]

pub without_member-Lost :
    (c member_id : ℕ) (g : GroupMeta) → LostIn c g → LostIn c (without_member member_id g)
unfolding without_member transition_to_prepare_rebalance
without_member-Lost c member_id g h = elim (Bool-cases (length (erase member_id g.members) == 0)) [
  | inl last ↦ rw last (record { joins = λ e. cc; syncs = h.syncs })
  | inr others ↦ rw others (record { joins = λ _. tt; syncs = tt })
]

pub new_group-Lost : (c group_id protocol_name : ℕ) → LostIn c (new_group group_id protocol_name)
new_group-Lost c group_id protocol_name = record { joins = λ _. tt; syncs = tt }
