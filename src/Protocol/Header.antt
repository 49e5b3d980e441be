-- ===== src/Protocol/Header.antt =====
-- protocol/header.go with common/version.go, and ReadTaggedFields of protocol/reader.go.
use kaf_go.Base.{ℕ, zero, suc, ◌+◌, ◌%◌, Bool, false, not, List, [], ◌∷◌, Option, none, some}
use kaf_go.Base.{if◌then◌else◌, slt16, two64}
use kaf_go.Base.Assoc.{Assoc, lookup}
use kaf_go.Protocol.Outcome.{ok, M, ◌>>=◌, ◌>>◌, pure, require}
use kaf_go.Protocol.Reader.{read_int16, read_int32, read_uvarint, read_nullable_string}
use kaf_go.Protocol.Writer.{
  Writer, write_int16, write_int32, write_nullable_string, write_empty_tagged_fields,
}

-- API key to the first version that is flexible.
abbrev pub api_flexible_versions : Assoc ℕ
api_flexible_versions =
    (0, 9)
    ∷ (1, 12)
    ∷ (2, 6)
    ∷ (3, 9)
    ∷ (8, 8)
    ∷ (9, 6)
    ∷ (10, 3)
    ∷ (11, 6)
    ∷ (12, 4)
    ∷ (13, 4)
    ∷ (14, 4)
    ∷ (18, 3)
    ∷ (19, 5)
    ∷ (20, 4)
    ∷ (22, 2)
    ∷ (32, 4)
    ∷ (37, 2)
    ∷ (62, 0)
    ∷ (63, 0)
    ∷ []

abbrev pub at_least : ℕ → Option ℕ → Bool
at_least api_version none = false
at_least api_version (some min_flex) = not (slt16 api_version min_flex)

unfoldable pub is_flexible : ℕ → ℕ → Bool
is_flexible api_key api_version = at_least api_version (lookup api_key api_flexible_versions)

-- r.pos += n
unfoldable pub skip : ℕ → M (Unit {0})
skip n r = ok (tt, record r { pos = (r.pos + n) % two64 })

-- The loop over the tagged fields, on the fields left: the key, the size, then the value is skipped.
unfoldable pub tagged_loop : ℕ → M (Unit {0})
tagged_loop zero = pure tt
tagged_loop (suc left) = do
  tag ← read_uvarint
  size ← read_uvarint
  require size
  skip size
  tagged_loop left

unfoldable pub read_tagged_fields : M (Unit {0})
unfolding read_uvarint tagged_loop skip require
read_tagged_fields = do count ← read_uvarint; tagged_loop count

pub record RequestHeader : Type 0 where
  pub api_key : ℕ
  pub api_version : ℕ
  pub correlation_id : ℕ
  pub client_id : Option (List ℕ)

pub record ResponseHeader : Type 0 where
  pub correlation_id : ℕ
  pub api_version : ℕ
  pub api_key : ℕ

unfoldable pub write_tags_if : Bool → Writer → Writer
unfolding write_empty_tagged_fields
write_tags_if flexible w = if flexible then write_empty_tagged_fields w else w

abbrev pub read_tags_if : Bool → M (Unit {0})
read_tags_if flexible = if flexible then read_tagged_fields else pure tt

-- RequestHeader.Encode
unfoldable pub request_header_encode : RequestHeader → Writer → Writer
request_header_encode h w = write_tags_if (is_flexible h.api_key h.api_version) (
    write_nullable_string h.client_id
      (write_int32 h.correlation_id (write_int16 h.api_version (write_int16 h.api_key w))))

-- RequestHeader.Decode
unfoldable pub request_header_decode : M RequestHeader
request_header_decode = do
  api_key ← read_int16
  api_version ← read_int16
  correlation_id ← read_int32
  client_id ← read_nullable_string
  read_tags_if (is_flexible api_key api_version)
  pure (record {
    api_key = api_key;
    api_version = api_version;
    correlation_id = correlation_id;
    client_id = client_id;
  })

-- ResponseHeader.Encode
unfoldable pub response_header_encode : ResponseHeader → Writer → Writer
response_header_encode h w =
    write_tags_if (is_flexible h.api_key h.api_version) (write_int32 h.correlation_id w)

-- ResponseHeader.Decode, into a header whose key and version are known.
unfoldable pub response_header_decode : ℕ → ℕ → M ResponseHeader
response_header_decode api_version api_key = do
  correlation_id ← read_int32
  read_tags_if (is_flexible api_key api_version)
  pure (record { correlation_id = correlation_id; api_version = api_version; api_key = api_key })
