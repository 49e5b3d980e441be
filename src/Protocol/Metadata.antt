-- ===== src/Protocol/Metadata.antt =====
-- The records of the metadata log, of protocol/metadata/metadata_record.go: Encode of each type, and
-- Decode. A slice or a read behind the end of the payload is a panic.
pub mod RoundTrip
pub mod Short
use kaf_go.Base.{
  ℕ, zero, suc, ◌+◌, ◌-◌, List, [], ◌∷◌, ◌++◌, Option, none, some, ◌==◌, ◌&&◌, if◌then◌else◌,
  length, take, drop, leb,
}
use kaf_go.Protocol.Writer.{fixed_bytes}
use kaf_go.Storage.Clip.{field}

pub record BrokerRecord : Type 0 where
  pub broker_id : ℕ
  pub host : List ℕ
  pub port : ℕ
  pub epoch : ℕ

pub record TopicRecord : Type 0 where
  pub topic_id : List ℕ
  pub name : List ℕ
  pub num_partitions : ℕ
  pub min_insync_replicas : ℕ

pub record PartitionRecord : Type 0 where
  pub topic_id : List ℕ
  pub partition_id : ℕ
  pub leader : ℕ
  pub leader_epoch : ℕ
  pub replicas : List ℕ
  pub isr : List ℕ

pub record ProducerIdsRecord : Type 0 where
  pub broker_id : ℕ
  pub broker_epoch : ℕ
  pub next_producer_id : ℕ

pub data MetadataRecord : Type 0 where
  broker : BrokerRecord → MetadataRecord
  topic : TopicRecord → MetadataRecord
  partition : PartitionRecord → MetadataRecord
  producer_ids : ProducerIdsRecord → MetadataRecord

unfoldable pub encode_broker : BrokerRecord → List ℕ
unfolding fixed_bytes
encode_broker r =
    0
    ∷ 0
    ∷ (fixed_bytes 4 r.broker_id
        ++ (fixed_bytes 8 r.epoch
            ++ (fixed_bytes 2 (length r.host) ++ (r.host ++ fixed_bytes 4 r.port))))

unfoldable pub encode_topic : TopicRecord → List ℕ
unfolding fixed_bytes
encode_topic r =
    1
    ∷ 1
    ∷ (r.topic_id
        ++ (fixed_bytes 4 r.num_partitions
            ++ (fixed_bytes 2 (length r.name) ++ (r.name ++ fixed_bytes 2 r.min_insync_replicas))))

-- The loops over the replicas.
unfoldable pub int32s : List ℕ → List ℕ
unfolding fixed_bytes
int32s [] = []
int32s (id ∷ ids) = fixed_bytes 4 id ++ int32s ids

unfoldable pub encode_partition : PartitionRecord → List ℕ
unfolding fixed_bytes int32s
encode_partition r =
    2
    ∷ 0
    ∷ (r.topic_id
        ++ (fixed_bytes 4 r.partition_id
            ++ (fixed_bytes 4 r.leader
                ++ (fixed_bytes 4 r.leader_epoch
                    ++ (fixed_bytes 4 (length r.replicas)
                        ++ (int32s r.replicas
                            ++ (fixed_bytes 4 (length r.isr) ++ int32s r.isr)))))))

unfoldable pub encode_producer_ids : ProducerIdsRecord → List ℕ
unfolding fixed_bytes
encode_producer_ids r =
    3
    ∷ 0
    ∷ (fixed_bytes 4 r.broker_id
        ++ (fixed_bytes 8 r.broker_epoch ++ fixed_bytes 8 r.next_producer_id))

abbrev pub encode_record : MetadataRecord → List ℕ
encode_record (broker r) = encode_broker r
encode_record (topic r) = encode_topic r
encode_record (partition r) = encode_partition r
encode_record (producer_ids r) = encode_producer_ids r

-- Reading some bytes, and what is read of the rest; none is a panic.
unfoldable pub slice {ℓ} : {A : Type ℓ} → ℕ → List ℕ → (List ℕ → List ℕ → Option A) → Option A
slice n payload f = if leb n (length payload) then f (take n payload) (drop n payload) else none

unfoldable pub number {ℓ} : {A : Type ℓ} → ℕ → List ℕ → (ℕ → List ℕ → Option A) → Option A
unfolding slice
number w payload f = slice w payload (λ bytes rest. f (field bytes 0 w) rest)

unfoldable pub decode_broker_record : List ℕ → Option BrokerRecord
unfolding slice number
decode_broker_record payload = number 4 payload (λ broker_id payload.
    number 8 payload (λ epoch payload. number 2 payload (λ host_len payload.
      slice host_len payload (λ host payload. number 4 payload (λ port payload.
        some (record { broker_id = broker_id; host = host; port = port; epoch = epoch }))))))

-- MinInsyncReplicas, which version 0 does not have.
abbrev pub min_insync_of : ℕ → List ℕ → ℕ
min_insync_of version rest = if leb 1 version && leb 2 (length rest) then field rest 0 2 else 1

unfoldable pub decode_topic_record : List ℕ → ℕ → Option TopicRecord
unfolding slice number
decode_topic_record payload version = slice 16 payload (λ topic_id payload.
    number 4 payload (λ num_partitions payload. number 2 payload (λ name_len payload.
      slice name_len payload (λ name payload. some (record {
        topic_id = topic_id;
        name = name;
        num_partitions = num_partitions;
        min_insync_replicas = min_insync_of version payload;
      })))))

unfoldable pub decode_int32s {ℓ} :
    {A : Type ℓ} → ℕ → List ℕ → (List ℕ → List ℕ → Option A) → Option A
unfolding number
decode_int32s zero payload f = f [] payload
decode_int32s (suc n) payload f =
    number 4 payload (λ id payload. decode_int32s n payload (λ ids payload. f (id ∷ ids) payload))

unfoldable pub decode_partition_record : List ℕ → Option PartitionRecord
unfolding slice number decode_int32s
decode_partition_record payload = slice 16 payload (λ topic_id payload.
    number 4 payload (λ partition_id payload. number 4 payload (λ leader payload.
      number 4 payload (λ leader_epoch payload. number 4 payload (λ num_replicas payload.
        decode_int32s num_replicas payload (λ replicas payload. number 4 payload (λ num_isr payload.
          decode_int32s num_isr payload (λ isr payload. some (record {
            topic_id = topic_id;
            partition_id = partition_id;
            leader = leader;
            leader_epoch = leader_epoch;
            replicas = replicas;
            isr = isr;
          })))))))))

unfoldable pub decode_producer_ids_record : List ℕ → Option ProducerIdsRecord
unfolding slice number
decode_producer_ids_record payload = number 4 payload (λ broker_id payload.
    number 8 payload (λ broker_epoch payload. number 8 payload (λ next_producer_id payload.
      some (record {
        broker_id = broker_id;
        broker_epoch = broker_epoch;
        next_producer_id = next_producer_id;
      }))))

-- A record, nil, or a panic.
pub data Decoded : Type 0 where
  decoded : MetadataRecord → Decoded
  unknown : Decoded
  panics : Decoded

abbrev pub or_panic {ℓ} : {A : Type ℓ} → (A → MetadataRecord) → Option A → Decoded
or_panic f none = panics
or_panic f (some r) = decoded (f r)

abbrev pub decode_type : ℕ → ℕ → List ℕ → Decoded
decode_type record_type version payload =
    if record_type == 0
    then or_panic broker (decode_broker_record payload)
    else if record_type == 1
    then or_panic topic (decode_topic_record payload version)
    else if record_type == 2
    then or_panic partition (decode_partition_record payload)
    else if record_type == 3
    then or_panic producer_ids (decode_producer_ids_record payload)
    else unknown

-- Decode.
unfoldable pub decode_record : List ℕ → Decoded
unfolding decode_broker_record decode_topic_record decode_partition_record
    decode_producer_ids_record
decode_record [] = unknown
decode_record (record_type ∷ []) = unknown
decode_record (record_type ∷ version ∷ payload) = decode_type record_type version payload
