-- ===== src/Coordinator/GroupStore/Steps.antt =====
-- Every sequence of group operations, and what holds of all groups after it.
use kaf_go.Base.{ℕ, ◌≡◌, inl, inr, arith, List, Option, none, some}
use kaf_go.Base.{◌==◌, Bool-cases}
use mathlib.Core.Path.{subst}
use kaf_go.Base.Assoc.{Assoc, lookup, insert, erase, lookup-insert, lookup-erase}
use kaf_go.Coordinator.Group.{GroupMeta, Answer}
use kaf_go.Coordinator.Group.Sound.{Closed}
use kaf_go.Coordinator.GroupStore.{
  GroupStore, Reply, Ran, ran, panics, after_barrier, JoinRequest, join_group, leave_group,
  evict_member, sync_group, on_rebalance_timeout, collect_group,
}

-- One call of a method, or one timer that fires. A panic ends the process, so it has no successor.
pub data Step : GroupStore → GroupStore → Type 0 where
  join :
      (r : JoinRequest) (s : GroupStore) (reply : Reply) (t : GroupStore)
      → join_group r s ≡ ran reply t
      → Step s t
  leave :
      (group_id member_id : ℕ) (s : GroupStore) (reply : Reply) (t : GroupStore)
      → leave_group group_id member_id s ≡ ran reply t
      → Step s t
  sync :
      (group_id member_id generation_id : ℕ) (assignments : Option (Assoc (List ℕ)))
      (s : GroupStore) (reply : Reply) (t : GroupStore)
      → sync_group group_id member_id generation_id assignments s ≡ ran reply t
      → Step s t
  evict : (group_id member_id : ℕ) (s : GroupStore) → Step s (evict_member group_id member_id s)
  timeout :
      (group_id generation_id : ℕ) (s : GroupStore) (reply : Reply) (t : GroupStore)
      → on_rebalance_timeout group_id generation_id s ≡ ran reply t
      → Step s t
  collect : (group_id : ℕ) (s : GroupStore) → Step s (collect_group group_id s)

pub data Reach (start : GroupStore) : GroupStore → Type 0 where
  here : Reach start start
  next : {s t : GroupStore} → Reach start s → Step s t → Reach start t

abbrev pub Each : (GroupMeta → Type 0) → GroupStore → Type 0
Each P s = (group_id : ℕ) (g : GroupMeta) → lookup group_id s.groups ≡ some g → P g

-- What a method leaves, where it does not panic.
abbrev pub Leaves : (GroupStore → Type 0) → Ran → Type 0
Leaves P (ran reply s) = P s
Leaves P panics = Unit

pub Leaves-ran :
    (P : GroupStore → Type 0) (o : Ran) (reply : Reply) (t : GroupStore)
    → Leaves P o
    → o ≡ ran reply t
    → P t
Leaves-ran P o reply t h e = subst (Leaves P) e h

module _ (P : GroupMeta → Type 0) where
  pub Each-insert :
      (group_id : ℕ) (g : GroupMeta) (groups : Assoc GroupMeta)
      → P g
      → ((k : ℕ) (g' : GroupMeta) → lookup k groups ≡ some g' → P g')
      → (k : ℕ) (g' : GroupMeta) → lookup k (insert group_id g groups) ≡ some g'
      → P g'
  Each-insert group_id g groups p h k g' e = elim (Bool-cases (group_id == k)) [
    | inl same ↦ subst P (ground (arith, lookup-insert group_id k g groups)) p
    | inr other ↦ h k g' (ground (arith, lookup-insert group_id k g groups))
  ]

  pub Each-erase :
      (group_id : ℕ) (groups : Assoc GroupMeta)
      → ((k : ℕ) (g' : GroupMeta) → lookup k groups ≡ some g' → P g')
      → (k : ℕ) (g' : GroupMeta) → lookup k (erase group_id groups) ≡ some g'
      → P g'
  Each-erase group_id groups h k g' e = h k g' (ground (arith, lookup-erase group_id k groups))

  pub Each-after_barrier :
      (group_id : ℕ) (reply : Reply) (s : GroupStore) (o : Option (GroupMeta × List (ℕ × Answer)))
      → Closed P o
      → Each P s
      → Leaves (Each P) (after_barrier group_id reply s o)
  Each-after_barrier group_id reply s none c h = tt
  Each-after_barrier group_id reply s (some (g, answers)) c h = Each-insert group_id g s.groups c h
