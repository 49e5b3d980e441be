-- ===== src/Protocol/RoundTrip/Heartbeat.antt =====
-- The broker heartbeat: what is encoded is decoded.
use kaf_go.Base.{
  ℕ, ◌^◌, ◌<◌, ◌≡◌, refl, arith, Bool, true, false, List, [], ◌∷◌, ◌++◌, length, append_assoc,
  append-nil,
}
use kaf_go.Protocol.Outcome.{ok}
use kaf_go.Protocol.Reader.{read_fixed, read_bool, read_int16, read_int32, read_int64, read_uvarint}
use kaf_go.Protocol.Writer.{
  fixed_bytes, write_bool, write_int16, write_int32, write_int64, write_empty_tagged_fields,
}
use kaf_go.Protocol.Header.{read_tagged_fields, tagged_loop}
use kaf_go.Protocol.Heartbeat.{
  BrokerHeartbeatRequest, BrokerHeartbeatResponse, heartbeat_request_encode,
  heartbeat_request_decode, heartbeat_response_encode, heartbeat_response_decode,
}
use kaf_go.Protocol.RoundTrip.Stream.{at, Reads, Reads-pure, Reads-bind}
use kaf_go.Protocol.RoundTrip.Fixed.{Reads-byte, Reads-int16, Reads-int32, Reads-int64}
use kaf_go.Protocol.RoundTrip.Uvarint.{groups, Reads-uvarint}

abbrev flag : Bool → List ℕ
flag true = 1 ∷ []
flag false = 0 ∷ []

Reads-flag : (b : Bool) → Reads read_bool (flag b) b
unfolding read_bool
Reads-flag true = Reads-bind (read_fixed 1) _ (1 ∷ []) [] (Reads-byte 1) (Reads-pure true)
Reads-flag false = Reads-bind (read_fixed 1) _ (0 ∷ []) [] (Reads-byte 0) (Reads-pure false)

write_bool-append : (b : Bool) (w : List ℕ) → write_bool b w ≡ w ++ flag b
unfolding write_bool
write_bool-append true w = refl
write_bool-append false w = refl

Reads-no_tags : Reads read_tagged_fields (0x00 ∷ []) tt
unfolding read_tagged_fields tagged_loop groups
Reads-no_tags =
    Reads-bind read_uvarint tagged_loop (groups 9 0) [] (Reads-uvarint 0 (omega arith))
      (Reads-pure tt)

abbrev request_bytes : BrokerHeartbeatRequest → List ℕ
request_bytes b =
    fixed_bytes 4 b.broker_id
    ++ (fixed_bytes 8 b.broker_epoch
        ++ (fixed_bytes 8 b.current_metadata_offset
            ++ (flag b.want_fence ++ (flag b.want_shut_down ++ ((0x00 ∷ []) ++ [])))))

heartbeat_request-bytes :
    (b : BrokerHeartbeatRequest) → heartbeat_request_encode b [] ≡ request_bytes b
unfolding heartbeat_request_encode write_empty_tagged_fields
heartbeat_request-bytes b =
    rw (write_bool-append, write_bool-append)
      (unfold write_int32 write_int64 in simp (append_assoc, append-nil))

Reads-heartbeat_request :
    (b : BrokerHeartbeatRequest)
    → b.broker_id < 2 ^ 32
    → b.broker_epoch < 2 ^ 64
    → b.current_metadata_offset < 2 ^ 64
    → Reads heartbeat_request_decode (request_bytes b) b
unfolding heartbeat_request_decode
Reads-heartbeat_request b i e o =
    Reads-bind read_int32 _ (fixed_bytes 4 b.broker_id) _ (Reads-int32 b.broker_id i) (
      Reads-bind read_int64 _ (fixed_bytes 8 b.broker_epoch) _ (Reads-int64 b.broker_epoch e) (
        Reads-bind read_int64 _ (fixed_bytes 8 b.current_metadata_offset) _
          (Reads-int64 b.current_metadata_offset o)
          (Reads-bind read_bool _ (flag b.want_fence) _ (Reads-flag b.want_fence) (
            Reads-bind read_bool _ (flag b.want_shut_down) _ (Reads-flag b.want_shut_down)
              (Reads-bind read_tagged_fields _ (0x00 ∷ []) [] Reads-no_tags (Reads-pure b))))))

abbrev response_bytes : BrokerHeartbeatResponse → List ℕ
response_bytes b =
    fixed_bytes 4 b.throttle_time_ms
    ++ (fixed_bytes 2 b.error_code
        ++ (flag b.is_caught_up
            ++ (flag b.is_fenced ++ (flag b.should_shut_down ++ ((0x00 ∷ []) ++ [])))))

heartbeat_response-bytes :
    (b : BrokerHeartbeatResponse) → heartbeat_response_encode b [] ≡ response_bytes b
unfolding heartbeat_response_encode write_empty_tagged_fields
heartbeat_response-bytes b =
    rw (write_bool-append, write_bool-append, write_bool-append)
      (unfold write_int32 write_int16 in simp (append_assoc, append-nil))

Reads-heartbeat_response :
    (b : BrokerHeartbeatResponse)
    → b.throttle_time_ms < 2 ^ 32
    → b.error_code < 2 ^ 16
    → Reads heartbeat_response_decode (response_bytes b) b
unfolding heartbeat_response_decode
Reads-heartbeat_response b t e =
    Reads-bind read_int32 _ (fixed_bytes 4 b.throttle_time_ms) _ (Reads-int32 b.throttle_time_ms t)
      (Reads-bind read_int16 _ (fixed_bytes 2 b.error_code) _ (Reads-int16 b.error_code e) (
        Reads-bind read_bool _ (flag b.is_caught_up) _ (Reads-flag b.is_caught_up) (
          Reads-bind read_bool _ (flag b.is_fenced) _ (Reads-flag b.is_fenced) (
            Reads-bind read_bool _ (flag b.should_shut_down) _ (Reads-flag b.should_shut_down)
              (Reads-bind read_tagged_fields _ (0x00 ∷ []) [] Reads-no_tags (Reads-pure b))))))

-- A broker heartbeat request that is encoded is decoded again, for all values of its fields.
pub heartbeat_request_decode-encode :
    (b : BrokerHeartbeatRequest) (front rest : List ℕ)
    → b.broker_id < 2 ^ 32
    → b.broker_epoch < 2 ^ 64
    → b.current_metadata_offset < 2 ^ 64
    → length (front ++ (heartbeat_request_encode b [] ++ rest)) < 2 ^ 63
    → heartbeat_request_decode (at front (heartbeat_request_encode b [] ++ rest))
      ≡ ok (b, at (front ++ heartbeat_request_encode b []) rest)
heartbeat_request_decode-encode b front rest i e o fits =
    rw (heartbeat_request-bytes b)
      (Reads-heartbeat_request b i e o front rest (rw (heartbeat_request-bytes b) at fits))

-- A broker heartbeat response that is encoded is decoded again, for all values of its fields.
pub heartbeat_response_decode-encode :
    (b : BrokerHeartbeatResponse) (front rest : List ℕ)
    → b.throttle_time_ms < 2 ^ 32
    → b.error_code < 2 ^ 16
    → length (front ++ (heartbeat_response_encode b [] ++ rest)) < 2 ^ 63
    → heartbeat_response_decode (at front (heartbeat_response_encode b [] ++ rest))
      ≡ ok (b, at (front ++ heartbeat_response_encode b []) rest)
heartbeat_response_decode-encode b front rest t e fits =
    rw (heartbeat_response-bytes b)
      (Reads-heartbeat_response b t e front rest (rw (heartbeat_response-bytes b) at fits))
