-- ===== src/Server/Registry.antt =====
-- BrokerRegistry of server/broker_registry.go. Broker ids are int32 patterns and epochs int64
-- patterns; a host is its bytes, and the time is an argument.
pub mod Fencing
use kaf_go.Base.{ℕ, ◌+◌, ◌-◌, ◌^◌, ◌%◌, List, [], ◌∷◌, Option, none, some, map}
use kaf_go.Base.{◌==◌, if◌then◌else◌, slt32, two32, two64}
use kaf_go.Base.Assoc.{Assoc, lookup, insert}

pub record BrokerInfo : Type 0 where
  pub broker_id : ℕ
  pub host : List ℕ
  pub port : ℕ
  pub epoch : ℕ
  pub metadata_offset : ℕ
  pub last_seen : ℕ

abbrev pub BrokerRegistry : Type 0
BrokerRegistry = Assoc BrokerInfo

abbrev pub new_epoch : Option BrokerInfo → ℕ
new_epoch none = 1
new_epoch (some existing) = (existing.epoch + 1) % two64

-- RegisterBroker: the epoch and the registry.
unfoldable pub register_broker : ℕ → ℕ → List ℕ → ℕ → BrokerRegistry → ℕ × BrokerRegistry
register_broker now id host port r =
    let epoch = new_epoch (lookup id r) in
    (
      epoch,
      insert id
          (record {
            broker_id = id;
            host = host;
            port = port;
            epoch = epoch;
            metadata_offset = 0;
            last_seen = now;
          })
          r,
    )

pub data Validated : Type 0 where
  valid not_found : Validated
  stale_epoch : ℕ → ℕ → Validated

abbrev pub validate_info :
    ℕ → ℕ → ℕ → ℕ → BrokerRegistry → Option BrokerInfo → Validated × BrokerRegistry
validate_info now id epoch metadata_offset r none = (not_found, r)
validate_info now id epoch metadata_offset r (some info) =
    if info.epoch == epoch
    then (valid, insert id (record info { metadata_offset = metadata_offset; last_seen = now }) r)
    else (stale_epoch info.epoch epoch, r)

unfoldable pub validate_and_update : ℕ → ℕ → ℕ → ℕ → BrokerRegistry → Validated × BrokerRegistry
validate_and_update now id epoch metadata_offset r =
    validate_info now id epoch metadata_offset r (lookup id r)

abbrev pub offset_of : Option BrokerInfo → ℕ
offset_of none = 0
offset_of (some info) = info.metadata_offset

unfoldable pub get_metadata_offset : ℕ → BrokerRegistry → ℕ
get_metadata_offset id r = offset_of (lookup id r)

-- The loop of LowestBrokerID.
unfoldable pub lowest_loop : ℕ → BrokerRegistry → ℕ
lowest_loop lowest [] = lowest
lowest_loop lowest ((id, info) ∷ r) = lowest_loop (if slt32 id lowest then id else lowest) r

abbrev pub largest_id : ℕ
largest_id = 2 ^ 31 - 1

unfoldable pub lowest_broker_id : BrokerRegistry → ℕ
unfolding lowest_loop
lowest_broker_id r =
    if lowest_loop largest_id r == largest_id then two32 - 1 else lowest_loop largest_id r

unfoldable pub all : BrokerRegistry → List BrokerInfo
all r = map (λ entry. entry.1) r

abbrev pub addr_of : Option BrokerInfo → List ℕ × ℕ
addr_of none = ([], 0)
addr_of (some info) = (info.host, info.port)

unfoldable pub get_broker_addr : ℕ → BrokerRegistry → List ℕ × ℕ
get_broker_addr id r = addr_of (lookup id r)
