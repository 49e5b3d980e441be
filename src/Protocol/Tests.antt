-- ===== src/Protocol/Tests.antt =====
-- The codec on concrete bytes.
use kaf_go.Protocol.Metadata.{
  TopicRecord, ProducerIdsRecord, topic, producer_ids, encode_producer_ids, encode_record, decoded,
  panics, decode_record,
}
use kaf_go.Protocol.Metadata.RoundTrip.{decode_record-encode}
use kaf_go.Protocol.Metadata.Short.{decode_record-cut}
use kaf_go.Base.{take}
use kaf_go.Base.{ℕ, ◌≡◌, refl, arith, some, List, [], ◌∷◌, ◌++◌, two64, ◌-◌}
use kaf_go.Base.Assoc.{lookup}
use kaf_go.Protocol.Outcome.{ok, Reader}
use kaf_go.Protocol.Reader.{read_int64, read_uvarint, read_varint}
use kaf_go.Protocol.Writer.{
  write_int32, write_int64, write_uvarint, write_varint, write_nullable_string,
}
use kaf_go.Protocol.Header.{
  is_flexible, write_tags_if, RequestHeader, ResponseHeader, request_header_encode,
  request_header_decode,
}
use kaf_go.Base.{true, false}
use kaf_go.Protocol.Heartbeat.{BrokerHeartbeatRequest, BrokerHeartbeatResponse}
use kaf_go.Protocol.Safety.{IsValid, Safe, Anything, read_uvarint-Safe}
use kaf_go.Protocol.RoundTrip.Stream.{at}
use kaf_go.Protocol.RoundTrip.Headers.{request_header_decode-encode}
use kaf_go.Protocol.RoundTrip.Codec.{read_uvarint-write_uvarint, read_varint-write_varint}

abbrev start : List ℕ → Reader
start bytes = record { buff = bytes; pos = 0 }

varint_round :
    read_varint (start (write_varint (two64 - 300) []))
    ≡ ok (two64 - 300, record { buff = 0xd7 ∷ 0x04 ∷ []; pos = 2 })
unfolding read_varint write_varint
varint_round = refl

abbrev front : List ℕ
front = 9 ∷ []

abbrev rest : List ℕ
rest = 8 ∷ 7 ∷ []

abbrev name : List ℕ
name = 97 ∷ 98 ∷ []

read_uvarint-write_uvarint_example :
    read_uvarint (at front (write_uvarint 300 [] ++ rest))
    ≡ ok (300, at (front ++ write_uvarint 300 []) rest)
unfolding write_uvarint
read_uvarint-write_uvarint_example =
    read_uvarint-write_uvarint 300 front rest (omega arith) (omega arith)

read_varint-write_varint_example :
    (read_varint (at front (write_varint (two64 - 300) [] ++ rest))
      ≡ ok (two64 - 300, at (front ++ write_varint (two64 - 300) []) rest))
    × (read_int64 (at front (write_int64 (two64 - 300) [] ++ rest))
        ≡ ok (two64 - 300, at (front ++ write_int64 (two64 - 300) []) rest))
unfolding write_varint write_int64
read_varint-write_varint_example =
    read_varint-write_varint (two64 - 300) front rest (omega arith) (omega arith) (omega arith)

-- A version 3 ApiVersions request, whose header is flexible.
abbrev request : RequestHeader
request = record { api_key = 18; api_version = 3; correlation_id = 5; client_id = some name }

request_header_decode-encode_example :
    request_header_decode (at front (request_header_encode request [] ++ rest))
    ≡ ok (request, at (front ++ request_header_encode request []) rest)
unfolding request_header_encode write_tags_if is_flexible lookup write_nullable_string write_int32
request_header_decode-encode_example =
    request_header_decode-encode request front rest (omega arith) (omega arith) (omega arith)
      (omega arith, omega arith) (omega arith)

abbrev response : ResponseHeader
response = record { api_key = 1; api_version = 12; correlation_id = 5 }

abbrev truncated : Reader
truncated = start (0x80 ∷ 0xff ∷ [])

truncated-IsValid : IsValid truncated
truncated-IsValid = record {
  inside = omega arith;
  fits = omega arith;
  bytes = (omega arith, (omega arith, tt));
}

read_uvarint-Safe_example : Safe Anything truncated (read_uvarint truncated)
read_uvarint-Safe_example = read_uvarint-Safe truncated truncated-IsValid

abbrev beat : BrokerHeartbeatRequest
beat = record {
  broker_id = 3;
  broker_epoch = 12;
  current_metadata_offset = 400;
  want_fence = false;
  want_shut_down = true;
}

abbrev answer : BrokerHeartbeatResponse
answer = record {
  throttle_time_ms = 0;
  error_code = 0;
  is_caught_up = true;
  is_fenced = false;
  should_shut_down = false;
}

-- Topic "logs" with three partitions.
abbrev logs : TopicRecord
logs = record {
  topic_id = 1 ∷ 2 ∷ 3 ∷ 4 ∷ 5 ∷ 6 ∷ 7 ∷ 8 ∷ 9 ∷ 10 ∷ 11 ∷ 12 ∷ 13 ∷ 14 ∷ 15 ∷ 16 ∷ [];
  name = b'l' ∷ b'o' ∷ b'g' ∷ b's' ∷ [];
  num_partitions = 3;
  min_insync_replicas = 2;
}

decode_record-encode_example : decode_record (encode_record (topic logs)) ≡ decoded (topic logs)
decode_record-encode_example =
    decode_record-encode (topic logs) (record {
      uuid = refl;
      name = omega arith;
      partitions = omega arith;
      min_insync = omega arith;
    })

-- The lease up to 2000 by broker 1, cut behind the broker id.
abbrev lease : ProducerIdsRecord
lease = record { broker_id = 1; broker_epoch = 7; next_producer_id = 2000 }

decode_record-cut_example : decode_record (take 6 (encode_record (producer_ids lease))) ≡ panics
unfolding encode_producer_ids
decode_record-cut_example =
    decode_record-cut (producer_ids lease)
      (record { id = omega arith; epoch = omega arith; next = omega arith }) tt 4 (omega arith)
