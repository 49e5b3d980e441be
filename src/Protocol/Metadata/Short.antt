-- ===== src/Protocol/Metadata/Short.antt =====
-- Decode on a record of the metadata log that is cut short.
use kaf_go.Base.{
  ℕ, zero, suc, ◌+◌, ◌-◌, ◌^◌, ◌≤◌, ◌<◌, ◌≡◌, refl, sym, ◌∙◌, ap, arith, Bool-cases, inl, inr, true,
  false, List, [], ◌∷◌, ◌++◌, Option, none, append-nil,
}
use kaf_go.Base.{length, take, drop, leb, ltb, All, length-append, append_assoc, two32, two64}
use mathlib.Core.Path.{subst}
use kaf_go.Protocol.Writer.{fixed_bytes}
use kaf_go.Protocol.RoundTrip.Fixed.{value_16, value_32, value_64}
use kaf_go.Storage.Clip.{field}
use kaf_go.Protocol.Metadata.{
  BrokerRecord, PartitionRecord, ProducerIdsRecord, MetadataRecord, broker, topic, partition,
  producer_ids, encode_broker, encode_partition, encode_record, int32s, decode_int32s,
  decode_partition_record, encode_producer_ids, slice, number, decode_broker_record,
  decode_producer_ids_record, panics, or_panic, decode_record,
}
use kaf_go.Protocol.Metadata.RoundTrip.{BrokerFits, PartitionFits, ProducerIdsFits, Fits}

length-take : (n : ℕ) (xs : List ℕ) → n ≤ length xs → length (take n xs) ≡ n
length-take zero xs h = refl
length-take (suc n) [] h = absurd (omega arith)
length-take (suc n) (x ∷ xs) h = ap suc (length-take n xs (omega arith))

take-whole : (xs rest : List ℕ) (n : ℕ) → take (length xs) (take (length xs + n) (xs ++ rest)) ≡ xs
take-whole [] rest n = refl
take-whole (x ∷ xs) rest n =
    let next : length (x ∷ xs) + n ≡ suc (length xs + n) = omega arith in
    ap (λ k. take (suc (length xs)) (take k (x ∷ (xs ++ rest)))) next
    ∙ ap (λ t. x ∷ t) (take-whole xs rest n)

drop-whole :
    (xs rest : List ℕ) (n : ℕ) → drop (length xs) (take (length xs + n) (xs ++ rest)) ≡ take n rest
drop-whole [] rest n = ap (λ k. take k rest) (omega arith)
drop-whole (x ∷ xs) rest n =
    let next : length (x ∷ xs) + n ≡ suc (length xs + n) = omega arith in
    ap (λ k. drop (suc (length xs)) (take k (x ∷ (xs ++ rest)))) next ∙ drop-whole xs rest n

module _ {ℓ} {A : Type ℓ} where
  -- Every proper prefix of the bytes is too short for f.
  record Short (f : List ℕ → Option A) (bytes : List ℕ) : Type ℓ where
    cut : (n : ℕ) → n < length bytes → f (take n bytes) ≡ none

  slice-Short :
      (xs : List ℕ) {rest : List ℕ} (f : List ℕ → List ℕ → Option A)
      → Short (f xs) rest
      → Short (λ payload. slice (length xs) payload f) (xs ++ rest)
  unfolding slice
  slice-Short xs {rest} f next = record {
    cut = λ n h. elim (Bool-cases (ltb n (length xs))) [
      | inl e ↦
          let size = length-take n (xs ++ rest) (omega arith) in
          let short : leb (length xs) (length (take n (xs ++ rest))) ≡ false =
            ground (arith, size) in
          rw short refl
      | inr e ↦
          let split : n ≡ length xs + (n - length xs) = ground arith in
          let size = length-take n (xs ++ rest) (omega arith) in
          let there : leb (length xs) (length (take n (xs ++ rest))) ≡ true =
            ground (arith, size) in
          rw there (
            ap
              (λ k.
                f (take (length xs) (take k (xs ++ rest))) (drop (length xs) (take k (xs ++ rest))))
              split
            ∙ rw (take-whole xs rest (n - length xs), drop-whole xs rest (n - length xs))
                (next.cut (n - length xs) (ground (arith, length-append xs rest))))
    ];
  }

  number_32-Short :
      (v : ℕ) {rest : List ℕ} (f : ℕ → List ℕ → Option A)
      → v < two32
      → Short (f v) rest
      → Short (λ payload. number 4 payload f) (fixed_bytes 4 v ++ rest)
  unfolding fixed_bytes number
  number_32-Short v {rest} f fits next =
      slice-Short (fixed_bytes 4 v) (λ bytes rest. f (field bytes 0 4) rest)
        (record { cut = λ n h. ap (λ k. f k (take n rest)) (value_32 v fits) ∙ next.cut n h })

  number_64-Short :
      (v : ℕ) {rest : List ℕ} (f : ℕ → List ℕ → Option A)
      → v < two64
      → Short (f v) rest
      → Short (λ payload. number 8 payload f) (fixed_bytes 8 v ++ rest)
  unfolding fixed_bytes number
  number_64-Short v {rest} f fits next =
      slice-Short (fixed_bytes 8 v) (λ bytes rest. f (field bytes 0 8) rest)
        (record { cut = λ n h. ap (λ k. f k (take n rest)) (value_64 v fits) ∙ next.cut n h })

  number_16-Short :
      (v : ℕ) {rest : List ℕ} (f : ℕ → List ℕ → Option A)
      → v < 2 ^ 16
      → Short (f v) rest
      → Short (λ payload. number 2 payload f) (fixed_bytes 2 v ++ rest)
  unfolding fixed_bytes number
  number_16-Short v {rest} f fits next =
      slice-Short (fixed_bytes 2 v) (λ bytes rest. f (field bytes 0 2) rest)
        (record { cut = λ n h. ap (λ k. f k (take n rest)) (value_16 v fits) ∙ next.cut n h })

  nothing-Short : (f : List ℕ → Option A) → Short f []
  nothing-Short f = record { cut = λ n h. absurd (omega arith) }

  slice_exact-Short :
      (n : ℕ) (xs : List ℕ) {rest : List ℕ} (f : List ℕ → List ℕ → Option A)
      → length xs ≡ n
      → Short (f xs) rest
      → Short (λ payload. slice n payload f) (xs ++ rest)
  slice_exact-Short n xs {rest} f e next =
      subst (λ k. Short (λ payload. slice k payload f) (xs ++ rest)) e (slice-Short xs f next)

  decode_int32s-Short :
      (ids : List ℕ) {rest : List ℕ} (f : List ℕ → List ℕ → Option A)
      → All (λ id. id < two32) ids
      → Short (f ids) rest
      → Short (λ payload. decode_int32s (length ids) payload f) (int32s ids ++ rest)
  unfolding decode_int32s int32s
  decode_int32s-Short [] f h next = next
  decode_int32s-Short (id ∷ ids) {rest} f h next =
      subst (Short (λ payload. decode_int32s (suc (length ids)) payload f))
        (sym (append_assoc (fixed_bytes 4 id) (int32s ids) rest))
        (number_32-Short id
          (λ id payload. decode_int32s (length ids) payload (λ ids payload. f (id ∷ ids) payload))
          h.0 (decode_int32s-Short ids (λ ids payload. f (id ∷ ids) payload) h.1 next))

  decode_int32s_last-Short :
      (ids : List ℕ) (f : List ℕ → List ℕ → Option A)
      → All (λ id. id < two32) ids
      → Short (f ids) []
      → Short (λ payload. decode_int32s (length ids) payload f) (int32s ids)
  decode_int32s_last-Short ids f h next =
      subst (Short (λ payload. decode_int32s (length ids) payload f)) (append-nil (int32s ids))
        (decode_int32s-Short ids f h next)

ruleset cuts = (number_16-Short, number_32-Short, number_64-Short, slice-Short, nothing-Short)

broker-Short :
    (r : BrokerRecord) → BrokerFits r → Short decode_broker_record (drop 2 (encode_broker r))
unfolding encode_broker decode_broker_record
broker-Short r h = search (cuts, h.id, h.epoch, h.host, h.port) depth 12 fits 4000

partition-Short :
    (r : PartitionRecord)
    → PartitionFits r
    → Short decode_partition_record (drop 2 (encode_partition r))
unfolding encode_partition decode_partition_record
partition-Short r h =
    search
      (
        cuts, slice_exact-Short, decode_int32s-Short, decode_int32s_last-Short, h.uuid, h.id,
        h.leader, h.leader_epoch, h.replicas, h.isr, h.few_replicas, h.few_isr,
      )
      depth 12 fits 4000

producer_ids-Short :
    (r : ProducerIdsRecord)
    → ProducerIdsFits r
    → Short decode_producer_ids_record (drop 2 (encode_producer_ids r))
unfolding encode_producer_ids decode_producer_ids_record
producer_ids-Short r h = search (cuts, h.id, h.epoch, h.next) depth 12 fits 4000

-- A record of a type whose last field is not optional.
abbrev pub IsNotTopic : MetadataRecord → Type 0
IsNotTopic (topic r) = ⊥
IsNotTopic (broker r) = Unit
IsNotTopic (partition r) = Unit
IsNotTopic (producer_ids r) = Unit

-- The bytes of a broker, partition or producer-ids record, cut anywhere behind the type and the version, make Decode
-- panic; it does not give nil.
pub decode_record-cut :
    (r : MetadataRecord)
    → Fits r
    → IsNotTopic r
    → (n : ℕ) → suc (suc n) < length (encode_record r)
    → decode_record (take (suc (suc n)) (encode_record r)) ≡ panics
unfolding decode_record encode_broker encode_partition encode_producer_ids
decode_record-cut (broker r) h fixed n short =
    ap (or_panic broker) ((broker-Short r h).cut n (omega arith))
decode_record-cut (topic r) h optional n short = absurd optional
decode_record-cut (partition r) h fixed n short =
    ap (or_panic partition) ((partition-Short r h).cut n (omega arith))
decode_record-cut (producer_ids r) h fixed n short =
    ap (or_panic producer_ids) ((producer_ids-Short r h).cut n (omega arith))
