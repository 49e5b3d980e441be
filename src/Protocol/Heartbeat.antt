-- ===== src/Protocol/Heartbeat.antt =====
-- The messages of the broker heartbeat: protocol/broker/broker_heartbeat_request.go and
-- protocol/broker/broker_heartbeat_response.go.
use kaf_go.Base.{ℕ, Bool}
use kaf_go.Protocol.Outcome.{M, ◌>>=◌, ◌>>◌, pure}
use kaf_go.Protocol.Reader.{read_bool, read_int16, read_int32, read_int64}
use kaf_go.Protocol.Writer.{
  Writer, write_bool, write_int16, write_int32, write_int64, write_empty_tagged_fields,
}
use kaf_go.Protocol.Header.{read_tagged_fields}

pub record BrokerHeartbeatRequest : Type 0 where
  pub broker_id : ℕ
  pub broker_epoch : ℕ
  pub current_metadata_offset : ℕ
  pub want_fence : Bool
  pub want_shut_down : Bool

pub record BrokerHeartbeatResponse : Type 0 where
  pub throttle_time_ms : ℕ
  pub error_code : ℕ
  pub is_caught_up : Bool
  pub is_fenced : Bool
  pub should_shut_down : Bool

unfoldable pub heartbeat_request_encode : BrokerHeartbeatRequest → Writer → Writer
heartbeat_request_encode b w = write_empty_tagged_fields (
    write_bool b.want_shut_down (
      write_bool b.want_fence (
        write_int64 b.current_metadata_offset
          (write_int64 b.broker_epoch (write_int32 b.broker_id w)))))

unfoldable pub heartbeat_request_decode : M BrokerHeartbeatRequest
heartbeat_request_decode = do
  broker_id ← read_int32
  broker_epoch ← read_int64
  current_metadata_offset ← read_int64
  want_fence ← read_bool
  want_shut_down ← read_bool
  read_tagged_fields
  pure (record {
    broker_id = broker_id;
    broker_epoch = broker_epoch;
    current_metadata_offset = current_metadata_offset;
    want_fence = want_fence;
    want_shut_down = want_shut_down;
  })

unfoldable pub heartbeat_response_encode : BrokerHeartbeatResponse → Writer → Writer
heartbeat_response_encode b w = write_empty_tagged_fields (
    write_bool b.should_shut_down (
      write_bool b.is_fenced
        (write_bool b.is_caught_up (write_int16 b.error_code (write_int32 b.throttle_time_ms w)))))

unfoldable pub heartbeat_response_decode : M BrokerHeartbeatResponse
heartbeat_response_decode = do
  throttle_time_ms ← read_int32
  error_code ← read_int16
  is_caught_up ← read_bool
  is_fenced ← read_bool
  should_shut_down ← read_bool
  read_tagged_fields
  pure (record {
    throttle_time_ms = throttle_time_ms;
    error_code = error_code;
    is_caught_up = is_caught_up;
    is_fenced = is_fenced;
    should_shut_down = should_shut_down;
  })
