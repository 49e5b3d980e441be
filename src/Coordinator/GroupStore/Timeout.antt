-- ===== src/Coordinator/GroupStore/Timeout.antt =====
-- The rebalance timeout when no member has joined again, and the joins that are answered for sure.
use kaf_go.Base.{
  ℕ, ◌≡◌, ◌↔◌, ◌∙◌, inl, inr, refl, sym, ap, arith, true, false, List, [], ◌∷◌, ◌++◌, none, some,
}
use kaf_go.Base.{==_iff, ◌==◌, Bool-cases, length}
use kaf_go.Base.Assoc.{Assoc, lookup, insert, lookup-insert}
use kaf_go.Coordinator.Group.{
  GroupMember, PendingJoin, GroupMeta, is_preparing, close_barrier, maybe_close_join_barrier,
  has_joined, keep_joined,
}
use kaf_go.Coordinator.GroupStore.{
  GroupStore, done, ran, panics, after_barrier, timeout_in, on_rebalance_timeout,
}

keep_none : (members : Assoc GroupMember) → keep_joined [] members ≡ []
unfolding keep_joined has_joined
keep_none [] = refl
keep_none ((id, m) ∷ members) = keep_none members

module _ (group_id : ℕ) (s : GroupStore) where
  closes_or_panics :
      (g : GroupMeta) (joins : List PendingJoin)
      → after_barrier group_id done s (close_barrier g joins) ≡ panics
      → joins ≡ []
  closes_or_panics g [] e = refl
  closes_or_panics g (p ∷ joins) e = cc

  barrier_panics :
      (g : GroupMeta)
      → after_barrier group_id done s (maybe_close_join_barrier g) ≡ panics
      → (is_preparing g.state ≡ true) × (g.pending_joins ≡ [])
  unfolding maybe_close_join_barrier
  barrier_panics g e = elim (Bool-cases (is_preparing g.state)) [
    | inr other ↦ absurd_ran (rw other at e)
    | inl preparing ↦ elim (Bool-cases (length g.pending_joins == length g.members)) [
      | inl all ↦ (preparing, closes_or_panics g g.pending_joins (rw (preparing, all) at e))
      | inr waits ↦ absurd_ran (rw (preparing, waits) at e)
    ]
  ]
    where
      absurd_ran : {A : Type 0} {t : GroupStore} → ran done t ≡ panics → A
      absurd_ran e = cc

module _ (g : GroupMeta) where
  abbrev kept : GroupMeta
  kept = record g { members = keep_joined g.pending_joins g.members }

  kept_none : g.pending_joins ≡ [] → kept.members ≡ []
  kept_none nobody = ap (λ joins. keep_joined joins g.members) nobody ∙ keep_none g.members

  nobody_panics :
      is_preparing g.state ≡ true → g.pending_joins ≡ [] → maybe_close_join_barrier kept ≡ none
  unfolding maybe_close_join_barrier
  nobody_panics preparing nobody =
      let equal : (length g.pending_joins == length kept.members) ≡ true =
        ground (arith, ap length nobody, ap length (kept_none nobody)) in
      rw (preparing, equal) (ap (close_barrier kept) nobody)

  stays_open : is_preparing g.state ≡ false → maybe_close_join_barrier kept ≡ some (kept, [])
  unfolding maybe_close_join_barrier
  stays_open other = rw other refl

-- onRebalanceTimeout panics exactly when its generation is the group's, the group still collects
-- joins, and not a single member has joined again.
pub on_rebalance_timeout-panics :
    (group_id generation_id : ℕ) (s : GroupStore) (g : GroupMeta)
    → lookup group_id s.groups ≡ some g
    → (on_rebalance_timeout group_id generation_id s ≡ panics)
      ↔ ((g.generation_id ≡ generation_id) × (is_preparing g.state ≡ true) × (g.pending_joins ≡ []))
unfolding on_rebalance_timeout
on_rebalance_timeout-panics group_id generation_id s g e = (forth, back)
  where
    forth :
        on_rebalance_timeout group_id generation_id s ≡ panics
        → (g.generation_id ≡ generation_id) × (is_preparing g.state ≡ true) × (g.pending_joins ≡ [])
    forth p =
        let found : timeout_in group_id generation_id s (some g) ≡ panics =
          ap (timeout_in group_id generation_id s) (sym e) ∙ p in
        elim (Bool-cases (g.generation_id == generation_id)) [
          | inl current ↦
              let open_barrier = barrier_panics group_id s (kept g) (rw current at found) in
              ((==_iff g.generation_id generation_id).0 current, open_barrier.0, open_barrier.1)
          | inr other ↦ let impossible : ran done s ≡ panics = rw other at found in cc
        ]

    back :
        (g.generation_id ≡ generation_id) × (is_preparing g.state ≡ true) × (g.pending_joins ≡ [])
        → on_rebalance_timeout group_id generation_id s ≡ panics
    back (current, preparing, nobody) =
        let test : (g.generation_id == generation_id) ≡ true = ground arith in
        ap (timeout_in group_id generation_id s) e
        ∙ rw test (ap (after_barrier group_id done s) (nobody_panics g preparing nobody))

-- A timeout of the group's generation that comes when the group no longer collects joins, so that
-- none is pending, deletes every member of the group.
pub late_timeout_empties :
    (group_id : ℕ) (s : GroupStore) (g : GroupMeta)
    → lookup group_id s.groups ≡ some g
    → is_preparing g.state ≡ false
    → g.pending_joins ≡ []
    → (t : GroupStore) × (on_rebalance_timeout group_id g.generation_id s ≡ ran done t)
      × (lookup group_id t.groups ≡ some (record g { members = [] }))
unfolding on_rebalance_timeout
late_timeout_empties group_id s g e other nobody =
    let test : (g.generation_id == g.generation_id) ≡ true = ground arith in
    (
      record s { groups = insert group_id (kept g) s.groups; sent = s.sent ++ [] },
      ap (timeout_in group_id g.generation_id s) e
          ∙ rw test (ap (after_barrier group_id done s) (stays_open g other)),
      ground (arith, lookup-insert group_id group_id (kept g) s.groups)
          ∙ ap (λ members. some (record g { members = members })) (kept_none g nobody),
    )
