-- ===== src/Protocol/Metadata/RoundTrip.antt =====
-- A record of the metadata log that is encoded and decoded.
use kaf_go.Base.{
  ℕ, suc, ◌^◌, ◌<◌, ◌≡◌, sym, ◌∙◌, ap, arith, true, List, [], ◌∷◌, ◌++◌, Option, some, append-nil,
}
use kaf_go.Base.{
  length, drop, leb, All, take-append_length, drop-append_length, length-append, append_assoc,
  two32, two64,
}
use kaf_go.Protocol.Writer.{fixed_bytes}
use kaf_go.Protocol.RoundTrip.Fixed.{value_16, value_32, value_64}
use kaf_go.Storage.Clip.{field}
use kaf_go.Protocol.Metadata.{
  BrokerRecord, TopicRecord, PartitionRecord, ProducerIdsRecord, MetadataRecord, broker, topic,
  partition, producer_ids, encode_broker, encode_topic, int32s, encode_partition,
  encode_producer_ids, encode_record, slice, number, decode_broker_record, min_insync_of,
  decode_topic_record, decode_int32s, decode_partition_record, decode_producer_ids_record, decoded,
  or_panic, decode_record,
}

module _ {ℓ} {A : Type ℓ} where
  slice-append :
      (xs : List ℕ) {rest : List ℕ} (f : List ℕ → List ℕ → Option A) {o : Option A}
      → f xs rest ≡ o
      → slice (length xs) (xs ++ rest) f ≡ o
  unfolding slice
  slice-append xs {rest} f next =
      let there : leb (length xs) (length (xs ++ rest)) ≡ true =
        ground (arith, length-append xs rest) in
      rw (there, take-append_length xs rest, drop-append_length xs rest) next

  number_16 :
      (v : ℕ) {rest : List ℕ} (f : ℕ → List ℕ → Option A) {o : Option A}
      → v < 2 ^ 16
      → f v rest ≡ o
      → number 2 (fixed_bytes 2 v ++ rest) f ≡ o
  unfolding fixed_bytes number
  number_16 v {rest} f fits next =
      slice-append (fixed_bytes 2 v) (λ bytes rest. f (field bytes 0 2) rest)
        (ap (λ n. f n rest) (value_16 v fits) ∙ next)

  number_32 :
      (v : ℕ) {rest : List ℕ} (f : ℕ → List ℕ → Option A) {o : Option A}
      → v < two32
      → f v rest ≡ o
      → number 4 (fixed_bytes 4 v ++ rest) f ≡ o
  unfolding fixed_bytes number
  number_32 v {rest} f fits next =
      slice-append (fixed_bytes 4 v) (λ bytes rest. f (field bytes 0 4) rest)
        (ap (λ n. f n rest) (value_32 v fits) ∙ next)

  number_64 :
      (v : ℕ) {rest : List ℕ} (f : ℕ → List ℕ → Option A) {o : Option A}
      → v < two64
      → f v rest ≡ o
      → number 8 (fixed_bytes 8 v ++ rest) f ≡ o
  unfolding fixed_bytes number
  number_64 v {rest} f fits next =
      slice-append (fixed_bytes 8 v) (λ bytes rest. f (field bytes 0 8) rest)
        (ap (λ n. f n rest) (value_64 v fits) ∙ next)

  slice-exact :
      (n : ℕ) (xs : List ℕ) {rest : List ℕ} (f : List ℕ → List ℕ → Option A) {o : Option A}
      → length xs ≡ n
      → f xs rest ≡ o
      → slice n (xs ++ rest) f ≡ o
  slice-exact n xs {rest} f e next =
      ap (λ k. slice k (xs ++ rest) f) (sym e) ∙ slice-append xs f next

  decode_int32s-int32s :
      (ids : List ℕ) {rest : List ℕ} (f : List ℕ → List ℕ → Option A) {o : Option A}
      → All (λ id. id < two32) ids
      → f ids rest ≡ o
      → decode_int32s (length ids) (int32s ids ++ rest) f ≡ o
  unfolding decode_int32s int32s
  decode_int32s-int32s [] f h next = next
  decode_int32s-int32s (id ∷ ids) {rest} f h next =
      ap (λ bytes. decode_int32s (suc (length ids)) bytes f)
        (append_assoc (fixed_bytes 4 id) (int32s ids) rest)
      ∙ number_32 id
          (λ id payload. decode_int32s (length ids) payload (λ ids payload. f (id ∷ ids) payload))
          h.0 (decode_int32s-int32s ids (λ ids payload. f (id ∷ ids) payload) h.1 next)

decode_int32s_last {ℓ} :
    {A : Type ℓ} (ids : List ℕ) (f : List ℕ → List ℕ → Option A) {o : Option A}
    → All (λ id. id < two32) ids
    → f ids [] ≡ o
    → decode_int32s (length ids) (int32s ids) f ≡ o
decode_int32s_last ids f h next =
    ap (λ bytes. decode_int32s (length ids) bytes f) (sym (append-nil (int32s ids)))
    ∙ decode_int32s-int32s ids f h next

ruleset reading = (number_16, number_32, number_64, slice-append)

-- The fields fit their types, and the host its length.
pub record BrokerFits (r : BrokerRecord) : Type 0 where
  pub id : r.broker_id < two32
  pub host : length r.host < 2 ^ 16
  pub port : r.port < two32
  pub epoch : r.epoch < two64

broker-back :
    (r : BrokerRecord) → BrokerFits r → decode_broker_record (drop 2 (encode_broker r)) ≡ some r
unfolding encode_broker decode_broker_record
broker-back r h = search (reading, h.id, h.epoch, h.host, h.port)

pub record TopicFits (r : TopicRecord) : Type 0 where
  pub uuid : length r.topic_id ≡ 16
  pub name : length r.name < 2 ^ 16
  pub partitions : r.num_partitions < two32
  pub min_insync : r.min_insync_replicas < 2 ^ 16

min_insync-back : (v : ℕ) → v < 2 ^ 16 → min_insync_of 1 (fixed_bytes 2 v) ≡ v
unfolding fixed_bytes
min_insync-back v fits = value_16 v fits

topic-back :
    (r : TopicRecord) → TopicFits r → decode_topic_record (drop 2 (encode_topic r)) 1 ≡ some r
unfolding encode_topic decode_topic_record
topic-back r h =
    let last : some
          (record r { min_insync_replicas = min_insync_of 1 (fixed_bytes 2 r.min_insync_replicas) })
        ≡ some r =
      ap (λ v. some (record r { min_insync_replicas = v }))
        (min_insync-back r.min_insync_replicas h.min_insync) in
    search (reading, slice-exact, h.uuid, h.name, h.partitions, last)

pub record PartitionFits (r : PartitionRecord) : Type 0 where
  pub uuid : length r.topic_id ≡ 16
  pub id : r.partition_id < two32
  pub leader : r.leader < two32
  pub leader_epoch : r.leader_epoch < two32
  pub replicas : All (λ id. id < two32) r.replicas
  pub isr : All (λ id. id < two32) r.isr
  pub few_replicas : length r.replicas < two32
  pub few_isr : length r.isr < two32

partition-back :
    (r : PartitionRecord)
    → PartitionFits r
    → decode_partition_record (drop 2 (encode_partition r)) ≡ some r
unfolding encode_partition decode_partition_record
partition-back r h =
    search
      (
        reading, slice-exact, decode_int32s-int32s, decode_int32s_last, h.uuid, h.id, h.leader,
        h.leader_epoch, h.replicas, h.isr, h.few_replicas, h.few_isr,
      )
      depth 12 fits 4000

pub record ProducerIdsFits (r : ProducerIdsRecord) : Type 0 where
  pub id : r.broker_id < two32
  pub epoch : r.broker_epoch < two64
  pub next : r.next_producer_id < two64

producer_ids-back :
    (r : ProducerIdsRecord)
    → ProducerIdsFits r
    → decode_producer_ids_record (drop 2 (encode_producer_ids r)) ≡ some r
unfolding encode_producer_ids decode_producer_ids_record
producer_ids-back r h = search (reading, h.id, h.epoch, h.next)

abbrev pub Fits : MetadataRecord → Type 0
Fits (broker r) = BrokerFits r
Fits (topic r) = TopicFits r
Fits (partition r) = PartitionFits r
Fits (producer_ids r) = ProducerIdsFits r

-- A record of each type that is encoded is decoded again by Decode, when its fields fit their types, its host or name
-- has a length below 2^16 and its topic id 16 bytes.
pub decode_record-encode :
    (r : MetadataRecord) → Fits r → decode_record (encode_record r) ≡ decoded r
unfolding decode_record encode_broker encode_topic encode_partition encode_producer_ids
decode_record-encode (broker r) h = ap (or_panic broker) (broker-back r h)
decode_record-encode (topic r) h = ap (or_panic topic) (topic-back r h)
decode_record-encode (partition r) h = ap (or_panic partition) (partition-back r h)
decode_record-encode (producer_ids r) h = ap (or_panic producer_ids) (producer_ids-back r h)
