-- ===== src/Server/Isr/Tick.antt =====
-- The ISR that a tick leaves.
use kaf_go.Base.{
  ℕ, ◌%◌, ◌^◌, ◌≡◌, ◌∙◌, refl, ap, arith, inl, inr, Bool, Bool-cases, true, false, ◌&&◌, ◌||◌, List,
  [], ◌∷◌, ◌++◌, Option, none, some, length,
}
use kaf_go.Base.{◌==◌, if◌then◌else◌, not, slt16, slt64}
use kaf_go.Base.Assoc.{lookup}
use kaf_go.Coordinator.Partition.{
  PartitionState, without, remove_from_isr, add_to_isr, candidate, advance_hwm,
}
use kaf_go.Coordinator.Partition.HighWatermark.{int32_slice_contains}
use kaf_go.Server.Isr.{
  lags, caught_up, shrink, shrink_loop, expand, expand_loop, check_min_isr, publish_and_check, tick,
}

contains-without :
    (isr : List ℕ) (g f : ℕ)
    → int32_slice_contains (without g isr) f
      ≡ (if f == g then false else int32_slice_contains isr f)
unfolding int32_slice_contains without
contains-without [] g f = ground arith
contains-without (x ∷ isr) g f = ground (arith, contains-without isr g f)

contains-append :
    (isr : List ℕ) (g f : ℕ)
    → int32_slice_contains (isr ++ (g ∷ [])) f
      ≡ (if g == f then true else int32_slice_contains isr f)
unfolding int32_slice_contains
contains-append [] g f = refl
contains-append (x ∷ isr) g f = ground (arith, contains-append isr g f)

module _ (now : ℕ) (snap : PartitionState) where
  -- A follower that the first loop removes.
  abbrev dropped : ℕ → Bool
  dropped f = not (f == snap.leader_broker_id) && lags now (lookup f snap.last_caught_up)

  -- One that the second loop adds.
  abbrev gained : ℕ → Bool
  gained f =
      not ((f == snap.leader_broker_id) || int32_slice_contains snap.isr f)
      && caught_up snap.hwm (lookup f snap.replica_leo)

  abbrev has : ℕ → Bool × PartitionState → Bool
  has f st = int32_slice_contains st.1.isr f

  shrink-isr :
      (x f : ℕ) (st : Bool × PartitionState)
      → has f (shrink now snap x st) ≡ (if (x == f) && dropped f then false else has f st)
  unfolding shrink remove_from_isr
  shrink-isr x f (changed, ps) = elim (Bool-cases (x == f)) [
    | inl same ↦
        let e : f ≡ x = ground arith in
        elim (Bool-cases (x == snap.leader_broker_id)) [
          | inl leads ↦ rw (e, leads) (ground arith)
          | inr follows ↦ elim (Bool-cases (lags now (lookup x snap.last_caught_up))) [
            | inl slow ↦ rw (e, follows, slow) (contains-without ps.isr x x ∙ ground arith)
            | inr quick ↦ rw (e, follows, quick) (ground arith)
          ]
        ]
    | inr other ↦ elim (Bool-cases (x == snap.leader_broker_id)) [
      | inl leads ↦ rw (other, leads) refl
      | inr follows ↦ elim (Bool-cases (lags now (lookup x snap.last_caught_up))) [
        | inl slow ↦ rw (other, follows, slow) (contains-without ps.isr x f ∙ ground arith)
        | inr quick ↦ rw (other, follows, quick) refl
      ]
    ]
  ]

  shrink_loop-isr :
      (l : List ℕ) (f : ℕ) (st : Bool × PartitionState)
      → has f (shrink_loop now snap l st)
        ≡ (if int32_slice_contains l f && dropped f then false else has f st)
  unfolding shrink_loop int32_slice_contains
  shrink_loop-isr [] f st = refl
  shrink_loop-isr (x ∷ l) f st =
      shrink_loop-isr l f (shrink now snap x st)
      ∙ joined (x == f) (int32_slice_contains l f) (dropped f) (has f (shrink now snap x st))
          (has f st) (shrink-isr x f st)
    where
      joined :
          (e m d c c' : Bool)
          → c ≡ (if e && d then false else c')
          → (if m && d then false else c) ≡ (if (if e then true else m) && d then false else c')
      joined true true true c c' h = refl
      joined true true false c c' h = h
      joined true false true c c' h = h
      joined true false false c c' h = h
      joined false true d c c' h = ground arith
      joined false false d c c' h = h

  expand-isr :
      (x f : ℕ) (st : Bool × PartitionState)
      → has f (expand snap x st) ≡ (if (x == f) && gained f then true else has f st)
  unfolding expand add_to_isr
  expand-isr x f (changed, ps) = elim (Bool-cases (x == f)) [
    | inl same ↦
        let e : f ≡ x = ground arith in
        elim (Bool-cases ((x == snap.leader_broker_id) || int32_slice_contains snap.isr x)) [
          | inl stays ↦ rw (e, stays) (ground arith)
          | inr free ↦ elim (Bool-cases (caught_up snap.hwm (lookup x snap.replica_leo))) [
            | inl level ↦
                rw (e, free, level) (contains-append (without x ps.isr) x x ∙ ground arith)
            | inr behind ↦ rw (e, free, behind) (ground arith)
          ]
        ]
    | inr other ↦
        elim (Bool-cases ((x == snap.leader_broker_id) || int32_slice_contains snap.isr x)) [
          | inl stays ↦ rw (other, stays) refl
          | inr free ↦ elim (Bool-cases (caught_up snap.hwm (lookup x snap.replica_leo))) [
            | inl level ↦
                rw (other, free, level)
                  (contains-append (without x ps.isr) x f
                    ∙ ground (arith, contains-without ps.isr x f))
            | inr behind ↦ rw (other, free, behind) refl
          ]
        ]
  ]

  expand_loop-isr :
      (l : List ℕ) (f : ℕ) (st : Bool × PartitionState)
      → has f (expand_loop snap l st)
        ≡ (if int32_slice_contains l f && gained f then true else has f st)
  unfolding expand_loop int32_slice_contains
  expand_loop-isr [] f st = refl
  expand_loop-isr (x ∷ l) f st =
      expand_loop-isr l f (expand snap x st)
      ∙ joined (x == f) (int32_slice_contains l f) (gained f) (has f (expand snap x st)) (has f st)
          (expand-isr x f st)
    where
      joined :
          (e m d c c' : Bool)
          → c ≡ (if e && d then true else c')
          → (if m && d then true else c) ≡ (if (if e then true else m) && d then true else c')
      joined true true true c c' h = refl
      joined true true false c c' h = h
      joined true false true c c' h = h
      joined true false false c c' h = h
      joined false true true c c' h = refl
      joined false true false c c' h = h
      joined false false d c c' h = h

advance_hwm-isr : (ps : PartitionState) → (advance_hwm ps).isr ≡ ps.isr
unfolding advance_hwm
advance_hwm-isr ps = elim (Bool-cases (slt64 ps.hwm (candidate ps))) [
  | inl up ↦ rw up refl
  | inr level ↦ rw level refl
]

check_min_isr-isr :
    (min_isr : Option ℕ) (ps : PartitionState) → (check_min_isr min_isr ps).isr ≡ ps.isr
unfolding check_min_isr
check_min_isr-isr none ps = refl
check_min_isr-isr (some min_isr) ps = elim (Bool-cases (slt16 (length ps.isr % 2 ^ 16) min_isr)) [
  | inl few ↦ rw few refl
  | inr enough ↦ rw enough refl
]

publish_and_check-isr :
    (min_isr : Option ℕ) (st : Bool × PartitionState)
    → (publish_and_check min_isr st).0.isr ≡ st.1.isr
publish_and_check-isr min_isr (false, ps) = refl
publish_and_check-isr none (true, ps) = advance_hwm-isr ps
publish_and_check-isr (some min_isr) (true, ps) =
    check_min_isr-isr (some min_isr) (advance_hwm ps) ∙ advance_hwm-isr ps

-- After a tick a follower that was in the ISR is in it exactly where it was caught up with the leader
-- within the last ten seconds, and one that was not exactly where it is a replica whose known log end
-- has reached the high watermark; the leader is in it exactly where it was.
pub tick-isr :
    (now : ℕ) (min_isr : Option ℕ) (ps : PartitionState) (f : ℕ)
    → int32_slice_contains (tick now min_isr ps).0.isr f ≡ (
        if f == ps.leader_broker_id
        then int32_slice_contains ps.isr f
        else if int32_slice_contains ps.isr f
        then not (lags now (lookup f ps.last_caught_up))
        else int32_slice_contains ps.replicas f && caught_up ps.hwm (lookup f ps.replica_leo))
unfolding tick
tick-isr now min_isr ps f =
    ap (λ isr. int32_slice_contains isr f)
      (publish_and_check-isr min_isr
        (expand_loop ps ps.replicas (shrink_loop now ps ps.isr (false, ps))))
    ∙ expand_loop-isr now ps ps.replicas f (shrink_loop now ps ps.isr (false, ps))
    ∙ ap (λ b. if int32_slice_contains ps.replicas f && gained now ps f then true else b)
        (shrink_loop-isr now ps ps.isr f (false, ps))
    ∙ cases (f == ps.leader_broker_id) (int32_slice_contains ps.isr f)
        (int32_slice_contains ps.replicas f) (caught_up ps.hwm (lookup f ps.replica_leo))
        (lags now (lookup f ps.last_caught_up))
  where
    cases :
        (leads inside replica caught slow : Bool)
        → (if replica && (not (leads || inside) && caught)
            then true
            else if inside && (not leads && slow)
            then false
            else inside)
          ≡ (if leads then inside else if inside then not slow else replica && caught)
    cases true true true caught slow = refl
    cases true true false caught slow = refl
    cases true false true caught slow = refl
    cases true false false caught slow = refl
    cases false true true caught true = refl
    cases false true true caught false = refl
    cases false true false caught true = refl
    cases false true false caught false = refl
    cases false false true true slow = refl
    cases false false true false slow = refl
    cases false false false caught slow = refl
