-- ===== src/Coordinator/Partition/HighWatermark.antt =====
-- The high watermark against the log ends of the leader and of the followers in sync.
use kaf_go.Base.{ℕ, ◌≤◌, ◌≡◌, ◌⊎◌, inl, inr, refl, arith, Bool, true, false}
use kaf_go.Base.{List, [], ◌∷◌, ◌==◌, if◌then◌else◌, Bool-cases, slt64, rank64, All}
use kaf_go.Base.Assoc.{Assoc, lookup}
use kaf_go.Coordinator.Partition.{PartitionState, or_zero, lowest, candidate, advance_hwm}

-- int32SliceContains of server/isr_manager.go.
unfoldable pub int32_slice_contains : List ℕ → ℕ → Bool
int32_slice_contains [] v = false
int32_slice_contains (x ∷ s) v =
    let rest = int32_slice_contains s v in if x == v then true else rest

module _ (leader : ℕ) (replica_leo : Assoc ℕ) where
  -- The log end that the leader knows of a replica.
  abbrev known : ℕ → ℕ
  known id = or_zero (lookup id replica_leo)

  abbrev lower : ℕ → ℕ → ℕ
  lower id leo = if id == leader then leo else (if slt64 (known id) leo then known id else leo)

  pub lowest-le : (isr : List ℕ) (leo : ℕ) → rank64 (lowest leader replica_leo isr leo) ≤ rank64 leo
  unfolding lowest
  lowest-le [] leo = omega arith
  lowest-le (id ∷ isr) leo = ground (arith, lowest-le isr (lower id leo))

  pub lowest-le-known :
      (isr : List ℕ) (leo id : ℕ)
      → int32_slice_contains isr id ≡ true
      → (id == leader) ≡ false
      → rank64 (lowest leader replica_leo isr leo) ≤ rank64 (known id)
  unfolding lowest int32_slice_contains
  lowest-le-known [] leo id h ne = cc
  lowest-le-known (x ∷ isr) leo id h ne =
      ground (arith, lowest-le isr (lower x leo), lowest-le-known isr (lower x leo) id)

  -- A follower of the ISR whose known log end is `v`.
  abbrev pub IsFollowerAt : List ℕ → ℕ → Type 0
  IsFollowerAt isr v =
      (id : ℕ) × (int32_slice_contains isr id ≡ true) × ((id == leader) ≡ false) × (v ≡ known id)

  one_more : (x : ℕ) (isr : List ℕ) (v : ℕ) → IsFollowerAt isr v → IsFollowerAt (x ∷ isr) v
  unfolding int32_slice_contains
  one_more x isr v (id, m, ne, e) = (id, ground arith, ne, e)

  pub lowest_reached :
      (isr : List ℕ) (leo : ℕ)
      → (lowest leader replica_leo isr leo ≡ leo)
        ⊎ IsFollowerAt isr (lowest leader replica_leo isr leo)
  unfolding lowest int32_slice_contains
  lowest_reached [] leo = inl refl
  lowest_reached (x ∷ isr) leo = elim (lowest_reached isr (lower x leo)) [
    | inr f ↦ inr (one_more x isr _ f)
    | inl e ↦ elim (Bool-cases (x == leader)) [
      | inl lead ↦ inl (ground arith)
      | inr follow ↦ elim (Bool-cases (slt64 (known x) leo)) [
        | inl below ↦ inr (x, ground arith, follow, ground arith)
        | inr above ↦ inl (ground arith)
      ]
    ]
  ]

-- AdvanceHWM never lowers the high watermark.
pub hwm-advance_hwm : (ps : PartitionState) → rank64 ps.hwm ≤ rank64 (advance_hwm ps).hwm
unfolding advance_hwm
hwm-advance_hwm ps = ground arith

-- Every member of the ISR has reached `v`: the leader with its log end, a follower with its known one.
abbrev pub AllReached : PartitionState → ℕ → Type 0
AllReached ps v =
    All
      (λ id.
        rank64 v
        ≤ rank64 (if id == ps.leader_broker_id then ps.leo else or_zero (lookup id ps.replica_leo)))
      ps.isr

lowest-reached :
    (leader leo start : ℕ) (replica_leo : Assoc ℕ) (isr : List ℕ)
    → rank64 start ≤ rank64 leo
    → All
        (λ id.
          rank64 (lowest leader replica_leo isr start)
          ≤ rank64 (if id == leader then leo else or_zero (lookup id replica_leo)))
        isr
unfolding lowest
lowest-reached leader leo start replica_leo [] h = tt
lowest-reached leader leo start replica_leo (x ∷ isr) h =
    let tail = lowest-le leader replica_leo isr (lower leader replica_leo x start) in
    (
      ground (arith, tail),
      lowest-reached leader leo (lower leader replica_leo x start) replica_leo isr (ground arith),
    )

-- Where AdvanceHWM raises the high watermark, the leader's log end has reached the new one, also where the leader is
-- alone in the ISR, and so has the log end that is known of every follower in the ISR: nothing is committed that a
-- replica in sync may lack. The new one is the leader's log end or the known log end of such a follower, so it is as
-- high as it may be.
pub advance_hwm_committed :
    (ps : PartitionState)
    → slt64 ps.hwm (advance_hwm ps).hwm ≡ true
    → (rank64 (advance_hwm ps).hwm ≤ rank64 ps.leo)
      × AllReached ps (advance_hwm ps).hwm
      × (((advance_hwm ps).hwm ≡ ps.leo)
          ⊎ IsFollowerAt ps.leader_broker_id ps.replica_leo ps.isr (advance_hwm ps).hwm)
unfolding advance_hwm
advance_hwm_committed ps up = elim (Bool-cases (slt64 ps.hwm (candidate ps))) [
  | inl raised ↦ rw raised (
    lowest-le ps.leader_broker_id ps.replica_leo ps.isr ps.leo,
    lowest-reached ps.leader_broker_id ps.leo ps.leo ps.replica_leo ps.isr (omega arith),
    lowest_reached ps.leader_broker_id ps.replica_leo ps.isr ps.leo,
  )
  | inr stay ↦ absurd (ground arith)
]

-- It raises it as far as it may: after AdvanceHWM the high watermark is not below the leader's
-- log end, or not below the known log end of some follower in the ISR.
pub advance_hwm_furthest :
    (ps : PartitionState)
    → (rank64 ps.leo ≤ rank64 (advance_hwm ps).hwm)
      ⊎ ((v : ℕ) × IsFollowerAt ps.leader_broker_id ps.replica_leo ps.isr v
          × (rank64 v ≤ rank64 (advance_hwm ps).hwm))
unfolding advance_hwm
advance_hwm_furthest ps = elim (lowest_reached ps.leader_broker_id ps.replica_leo ps.isr ps.leo) [
  | inl e ↦ inl (ground arith)
  | inr f ↦ inr (candidate ps, f, ground arith)
]
