-- ===== src/Coordinator/Partition/Store/Balance.antt =====
-- The partitions that AssignReplicas gives each broker to lead.
use kaf_go.Base.{
  ℕ, zero, suc, ◌+◌, ◌/◌, ◌%◌, ◌^◌, ◌≤◌, ◌<◌, ◌≡◌, refl, sym, ◌∙◌, ap, arith, Bool, true, false,
  List, [], ◌∷◌, some,
}
use kaf_go.Base.{◌==◌, ==_iff, ltb, slt32, two32, length, get_elem?, Bool-cases, inl, inr}
use kaf_go.Base.Assoc.{lookup, insert, has, has-insert}
use kaf_go.Coordinator.Partition.{PartitionState, new_partition_state}
use kaf_go.Coordinator.Partition.Store.{
  partition_key, PartitionStateStore, replica_at, replicas_from, replicas_of, assign_one,
  assign_loop, assign_replicas, partitions_led_by,
}

abbrev pub one_if : Bool → ℕ
one_if true = 1
one_if false = 0

-- Of the numbers below n, so many have the remainder j.
abbrev pub share : ℕ → ℕ → ℕ → ℕ
share k j n = n / k + one_if (ltb j (n % k))

next_rest : (n k : ℕ) → n % k + 1 < k → (n + 1) % k ≡ n % k + 1
next_rest n k h = grind arith

last_rest : (n k : ℕ) → n % k + 1 ≡ k → (n + 1) % k ≡ 0
last_rest n k h = grind arith

next_quotient : (n k : ℕ) → n % k + 1 < k → (n + 1) / k ≡ n / k
next_quotient n k h = grind arith

last_quotient : (n k : ℕ) → 0 < k → n % k + 1 ≡ k → (n + 1) / k ≡ n / k + 1
last_quotient n k p h = grind arith

share-next : (k j n : ℕ) → j < k → share k j (n + 1) ≡ share k j n + one_if (n % k == j)
share-next k j n h = elim (Bool-cases (ltb (n % k + 1) k)) [
  | inl e ↦
      let less : n % k + 1 < k = ground arith in
      rw (next_rest n k less, next_quotient n k less) (ground arith)
  | inr e ↦
      let full : n % k + 1 ≡ k = grind arith in
      rw (last_rest n k full, last_quotient n k (omega arith) full) (ground arith)
]

led-insert :
    (broker key : ℕ) (ps : PartitionState) (store : PartitionStateStore)
    → has key store ≡ false
    → length (partitions_led_by broker (insert key ps store))
      ≡ length (partitions_led_by broker store) + one_if (ps.leader_broker_id == broker)
unfolding partitions_led_by insert lookup
led-insert broker key ps [] fresh = ground arith
led-insert broker key ps ((k, other) ∷ store) fresh = ground (arith, led-insert broker key ps store)

share_none : (k j : ℕ) → 0 < k → share k j 0 ≡ 0
share_none k j h =
    let rest : 0 % k ≡ 0 = grind arith in
    let quotient : 0 / k ≡ 0 = grind arith in rw (rest, quotient) (ground arith)

elem_some : (xs : List ℕ) (i : ℕ) → i < length xs → (x : ℕ) × (get_elem? xs i ≡ some x)
elem_some [] i h = absurd (omega arith)
elem_some (x ∷ xs) zero h = (x, refl)
elem_some (x ∷ xs) (suc i) h = elem_some xs i (omega arith)

elem_bound : (xs : List ℕ) (i x : ℕ) → get_elem? xs i ≡ some x → i < length xs
elem_bound [] i x h = ground arith
elem_bound (y ∷ xs) zero x h = omega arith
elem_bound (y ∷ xs) (suc i) x h = omega (arith, elem_bound xs i x h)

some-injective : {a b : ℕ} → some a ≡ some b → a ≡ b
some-injective h = ground arith

rest_fits : (n k : ℕ) → 0 < k → n % k < k
rest_fits n k h = omega arith

balanced :
    (after from_next next before here one to to' : ℕ)
    → after + from_next ≡ next + to
    → next ≡ before + one
    → from_next ≡ here + one
    → to ≡ to'
    → after + here ≡ before + to'
balanced after from_next next before here one to to' a b c d = omega arith

module _ (brokers : List ℕ) (some_broker : 0 < length brokers) where
  replicas_from-some :
      (factor n : ℕ) → (replicas : List ℕ) × (replicas_from brokers factor n ≡ some replicas)
  replicas_from-some zero n = ([], refl)
  replicas_from-some (suc factor) n =
      let (id, first) =
        elem_some brokers (n % length brokers) (rest_fits n (length brokers) some_broker) in
      let (rest, others) = replicas_from-some factor (n + 1) in (id ∷ rest, rw (first, others) refl)

  not_negative : (factor : ℕ) → factor < 2 ^ 31 → slt32 factor 0 ≡ false
  not_negative factor small = ground arith

  assign_one-leader :
      (topic factor n : ℕ) (store : PartitionStateStore)
      → 0 < factor
      → factor < 2 ^ 31
      → (id : ℕ) × (replicas : List ℕ) × (replica_at brokers n ≡ some id)
        × (assign_one topic n store (replicas_of brokers factor n)
            ≡ some (
                insert
                  (partition_key topic n)
                  (new_partition_state id 0 (id ∷ replicas) (id ∷ []))
                  store))
  assign_one-leader topic zero n store positive small = absurd (omega arith)
  assign_one-leader topic (suc factor) n store positive small =
      let (id, first) =
        elem_some brokers (n % length brokers) (rest_fits n (length brokers) some_broker) in
      let (rest, others) = replicas_from-some factor (n + 1) in
      (id, rest, first, rw (not_negative (suc factor) small, first, others) refl)

  module _ (broker j : ℕ) (at_j : get_elem? brokers j ≡ some broker)
      (only_j : (i : ℕ) → get_elem? brokers i ≡ some broker → i ≡ j) where
    led-share :
        (n id : ℕ) → replica_at brokers n ≡ some id → (id == broker) ≡ (n % length brokers == j)
    led-share n id here = elim (Bool-cases (n % length brokers == j)) [
      | inl e ↦
          let place = (==_iff (n % length brokers) j).0 e in
          let same = some-injective (sym here ∙ ap (get_elem? brokers) place ∙ at_j) in
          (==_iff id broker).1 same ∙ sym e
      | inr e ↦ elim (Bool-cases (id == broker)) [
        | inl same ↦
            let place =
              only_j (n % length brokers) (here ∙ ap (λ b. some b) ((==_iff id broker).0 same)) in
            same ∙ sym ((==_iff (n % length brokers) j).1 place)
        | inr other ↦ other ∙ sym e
      ]
    ]

    led-assign_loop :
        (topic factor rounds n : ℕ) (store : PartitionStateStore)
        → 0 < factor
        → factor < 2 ^ 31
        → n + rounds < two32
        → ((m : ℕ) → n ≤ m → m < n + rounds → has (partition_key topic m) store ≡ false)
        → (store' : PartitionStateStore) × (assign_loop topic factor brokers rounds n store
            ≡ some store')
          × (length (partitions_led_by broker store') + share (length brokers) j n
              ≡ length (partitions_led_by broker store) + share (length brokers) j (n + rounds))
    unfolding assign_loop
    led-assign_loop topic factor zero n store positive small fits fresh = (
      store,
      refl,
      ap (λ m. length (partitions_led_by broker store) + share (length brokers) j m) (omega arith),
    )
    led-assign_loop topic factor (suc rounds) n store positive small fits fresh =
        let (id, replicas, here, assigned) =
          assign_one-leader topic factor n store positive small in
        let ps = new_partition_state id 0 (id ∷ replicas) (id ∷ []) in
        let next = insert (partition_key topic n) ps store in
        let (store', runs, count) =
          led-assign_loop topic factor rounds (n + 1) next positive small (omega arith) (λ m le lt.
            has-insert (partition_key topic n) (partition_key topic m) ps store
            ∙ ground (arith, fresh m (omega arith) (omega arith))) in
        let given =
          led-insert broker (partition_key topic n) ps store (fresh n (omega arith) (omega arith))
          ∙ ap (λ b. length (partitions_led_by broker store) + one_if b) (led-share n id here) in
        let step = share-next (length brokers) j n (elem_bound brokers j broker at_j) in
        let shift : share (length brokers) j (n + 1 + rounds)
            ≡ share (length brokers) j (n + suc rounds) =
          ap (share (length brokers) j) (omega arith) in
        (store', rw assigned runs, balanced _ _ _ _ _ _ _ _ count given step shift)

    -- AssignReplicas of n partitions of a topic that has none yet, on brokers of which one stands at place j alone,
    -- with a replication factor from 1 on: it does not panic, and it gives that broker n / k partitions to lead, of k
    -- brokers, and one more where j is below n % k, besides those that it leads already.
    pub assign_replicas-share :
        (topic factor n : ℕ) (store : PartitionStateStore)
        → 0 < factor
        → factor < 2 ^ 31
        → n < 2 ^ 31
        → ((m : ℕ) → m < n → has (partition_key topic m) store ≡ false)
        → (store' : PartitionStateStore) × (assign_replicas topic n factor brokers store
            ≡ some store')
          × (length (partitions_led_by broker store')
              ≡ length (partitions_led_by broker store) + share (length brokers) j n)
    unfolding assign_replicas
    assign_replicas-share topic factor n store positive small few fresh =
        let (store', runs, count) =
          led-assign_loop topic factor n 0 store positive small (omega arith)
            (λ m le lt. fresh m (omega arith)) in
        let none_yet : share (length brokers) j 0 ≡ 0 = share_none (length brokers) j some_broker in
        let to_n : share (length brokers) j (0 + n) ≡ share (length brokers) j n =
          ap (share (length brokers) j) (omega arith) in
        (store', rw (not_negative n few) runs, omega (arith, count, none_yet, to_n))
