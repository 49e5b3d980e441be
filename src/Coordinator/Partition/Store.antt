-- ===== src/Coordinator/Partition/Store.antt =====
-- PartitionStateStore of coordinator/partition_state.go. Topic names are numbers, partitions,
-- brokers and the replication factor int32 patterns. The labels of the purgatory's gauges are left out.
pub mod Balance
use kaf_go.Base.{
  ℕ, zero, suc, ◌+◌, ◌*◌, ◌%◌, Bool, true, false, List, [], ◌∷◌, ◌++◌, Option, none, some,
}
use kaf_go.Base.{◌==◌, if◌then◌else◌, slt32, two32, length, get_elem?}
use kaf_go.Base.Assoc.{Assoc, lookup, insert}
use kaf_go.Coordinator.Partition.{PartitionState, new_partition_state}

-- topicName-partition: one key for every name and partition from 0 on.
abbrev pub partition_key : ℕ → ℕ → ℕ
partition_key topic partition = topic * two32 + partition

abbrev pub PartitionStateStore : Type 0
PartitionStateStore = Assoc PartitionState

abbrev pub get_partition_state : ℕ → ℕ → PartitionStateStore → Option PartitionState
get_partition_state topic partition store = lookup (partition_key topic partition) store

abbrev pub led_state : ℕ → Option PartitionState → PartitionState
led_state broker none = new_partition_state broker 0 (broker ∷ []) (broker ∷ [])
led_state broker (some ps) = record ps { leader_broker_id = broker }

unfoldable pub set_leader : ℕ → ℕ → ℕ → PartitionStateStore → PartitionStateStore
set_leader topic partition broker store =
    insert (partition_key topic partition)
      (led_state broker (get_partition_state topic partition store)) store

unfoldable pub set_partition_state :
    ℕ → ℕ → ℕ → ℕ → List ℕ → List ℕ → PartitionStateStore → PartitionStateStore
set_partition_state topic partition leader leader_epoch replicas isr store =
    insert (partition_key topic partition) (new_partition_state leader leader_epoch replicas isr)
      store

abbrev pub in_isr : ℕ → List ℕ → Bool
in_isr id [] = false
in_isr id (broker ∷ isr) = if broker == id then true else in_isr id isr

abbrev pub with_isr : ℕ → PartitionState → PartitionState
with_isr id ps = if in_isr id ps.isr then ps else record ps { isr = ps.isr ++ (id ∷ []) }

abbrev pub update_isr_of : ℕ → ℕ → PartitionStateStore → Option PartitionState → PartitionStateStore
update_isr_of key id store none = store
update_isr_of key id store (some ps) = insert key (with_isr id ps) store

unfoldable pub update_isr : ℕ → ℕ → ℕ → PartitionStateStore → PartitionStateStore
update_isr topic partition id store =
    update_isr_of (partition_key topic partition) id store
      (get_partition_state topic partition store)

-- brokerIDs[(partition+i)%len(brokerIDs)]; none is the panic on no brokers.
abbrev pub replica_at : List ℕ → ℕ → Option ℕ
replica_at brokers n = get_elem? brokers (n % length brokers)

abbrev pub and_replica : Option ℕ → Option (List ℕ) → Option (List ℕ)
and_replica none rest = none
and_replica (some id) none = none
and_replica (some id) (some rest) = some (id ∷ rest)

-- The loop over the replication factor.
abbrev pub replicas_from : List ℕ → ℕ → ℕ → Option (List ℕ)
replicas_from brokers zero n = some []
replicas_from brokers (suc factor) n =
    and_replica (replica_at brokers n) (replicas_from brokers factor (n + 1))

-- make panics on a negative capacity.
abbrev pub replicas_of : List ℕ → ℕ → ℕ → Option (List ℕ)
replicas_of brokers factor partition =
    if slt32 factor 0 then none else replicas_from brokers factor partition

-- replicas[0] leads and is the ISR; none is a panic.
abbrev pub assign_one : ℕ → ℕ → PartitionStateStore → Option (List ℕ) → Option PartitionStateStore
assign_one topic partition store none = none
assign_one topic partition store (some []) = none
assign_one topic partition store (some (leader ∷ replicas)) = some (
    insert (partition_key topic partition)
      (new_partition_state leader 0 (leader ∷ replicas) (leader ∷ [])) store)

abbrev pub then_assign :
    Option PartitionStateStore
    → (PartitionStateStore → Option PartitionStateStore)
    → Option PartitionStateStore
then_assign none f = none
then_assign (some store) f = f store

-- The loop over the partitions: so many from one on.
unfoldable pub assign_loop :
    ℕ → ℕ → List ℕ → ℕ → ℕ → PartitionStateStore → Option PartitionStateStore
assign_loop topic factor brokers zero partition store = some store
assign_loop topic factor brokers (suc rounds) partition store =
    then_assign (assign_one topic partition store (replicas_of brokers factor partition))
      (assign_loop topic factor brokers rounds (partition + 1))

unfoldable pub assign_replicas :
    ℕ → ℕ → ℕ → List ℕ → PartitionStateStore → Option PartitionStateStore
unfolding assign_loop
assign_replicas topic num_partitions factor brokers store =
    assign_loop topic factor brokers (if slt32 num_partitions 0 then 0 else num_partitions) 0 store

unfoldable pub partitions_led_by : ℕ → PartitionStateStore → List PartitionState
partitions_led_by broker [] = []
partitions_led_by broker ((key, ps) ∷ store) =
    let rest = partitions_led_by broker store in
    if ps.leader_broker_id == broker then ps ∷ rest else rest
