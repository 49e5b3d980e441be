-- ===== src/Protocol/RoundTrip/Headers.antt =====
-- Request and response headers: what is encoded is decoded.
use kaf_go.Base.{ℕ, ◌%◌, ◌^◌, ◌<◌, ◌≡◌, refl, sym, arith, Bool, true, false, Option, none, some}
use kaf_go.Base.{List, [], ◌∷◌, ◌++◌, length, append_assoc, append-nil}
use kaf_go.Protocol.Outcome.{ok}
use kaf_go.Protocol.Reader.{read_int16, read_int32, read_uvarint, read_nullable_string}
use kaf_go.Protocol.Writer.{
  fixed_bytes, write_int16, write_int32, write_string, write_nullable_string,
}
use kaf_go.Protocol.Header.{
  is_flexible, tagged_loop, read_tagged_fields, RequestHeader, ResponseHeader, write_tags_if,
  read_tags_if, request_header_encode, request_header_decode, response_header_encode,
  response_header_decode,
}
use kaf_go.Protocol.RoundTrip.Stream.{at, Reads, Reads-pure, Reads-bind}
use kaf_go.Protocol.RoundTrip.Fixed.{Reads-int16, Reads-int32}
use kaf_go.Protocol.RoundTrip.Uvarint.{groups, Reads-uvarint}
use kaf_go.Protocol.RoundTrip.Values.{Reads-null_string, Reads-nullable_string}

-- A client id that the reader takes back: none, or a string of 1 to 2^15 - 1 bytes.
abbrev pub IsClientId : Option (List ℕ) → Type 0
IsClientId none = Unit
IsClientId (some s) = (0 < length s) × (length s < 2 ^ 15)

Reads-client_id :
    (v : Option (List ℕ)) → IsClientId v → Reads read_nullable_string (write_nullable_string v []) v
Reads-client_id none h = Reads-null_string
Reads-client_id (some s) h = Reads-nullable_string s h.0 h.1

abbrev tags : Bool → List ℕ
tags true = 0x00 ∷ []
tags false = []

Reads-tags : (flexible : Bool) → Reads (read_tags_if flexible) (tags flexible) tt
Reads-tags false = Reads-pure tt
Reads-tags true =
    unfold read_tagged_fields tagged_loop groups in
    Reads-bind read_uvarint tagged_loop (groups 9 0) [] (Reads-uvarint 0 (omega arith))
      (Reads-pure tt)

write_tags-append : (flexible : Bool) (w : List ℕ) → write_tags_if flexible w ≡ w ++ tags flexible
unfolding write_tags_if
write_tags-append true w = refl
write_tags-append false w = sym (append-nil w)

nullable_string-append :
    (v : Option (List ℕ)) (w : List ℕ) → write_nullable_string v w ≡ w ++ write_nullable_string v []
unfolding write_nullable_string write_string write_int16
nullable_string-append none w = refl
nullable_string-append (some s) w = append_assoc w (fixed_bytes 2 (length s % 2 ^ 16)) s

abbrev header_bytes : RequestHeader → List ℕ
header_bytes h =
    fixed_bytes 2 h.api_key
    ++ (fixed_bytes 2 h.api_version
        ++ (fixed_bytes 4 h.correlation_id
            ++ (write_nullable_string h.client_id []
                ++ (tags (is_flexible h.api_key h.api_version) ++ []))))

request_bytes : (h : RequestHeader) → request_header_encode h [] ≡ header_bytes h
unfolding request_header_encode
request_bytes h =
    rw (write_tags-append, nullable_string-append h.client_id)
      (unfold write_int16 write_int32 in simp (append_assoc, append-nil))

Reads-request_header :
    (h : RequestHeader)
    → h.api_key < 2 ^ 16
    → h.api_version < 2 ^ 16
    → h.correlation_id < 2 ^ 32
    → IsClientId h.client_id
    → Reads request_header_decode (header_bytes h) h
unfolding request_header_decode
Reads-request_header h k v c i =
    Reads-bind read_int16 _ (fixed_bytes 2 h.api_key) _ (Reads-int16 h.api_key k) (
      Reads-bind read_int16 _ (fixed_bytes 2 h.api_version) _ (Reads-int16 h.api_version v) (
        Reads-bind read_int32 _ (fixed_bytes 4 h.correlation_id) _ (Reads-int32 h.correlation_id c)
          (Reads-bind read_nullable_string _ (write_nullable_string h.client_id []) _
            (Reads-client_id h.client_id i)
            (Reads-bind (read_tags_if (is_flexible h.api_key h.api_version)) _
              (tags (is_flexible h.api_key h.api_version)) []
              (Reads-tags (is_flexible h.api_key h.api_version)) (Reads-pure h)))))

response_bytes :
    (h : ResponseHeader)
    → response_header_encode h []
      ≡ fixed_bytes 4 h.correlation_id ++ (tags (is_flexible h.api_key h.api_version) ++ [])
unfolding response_header_encode write_int32
response_bytes h = rw write_tags-append (simp append-nil)

-- A request header that is encoded is decoded again, and the reader stands behind it: for every
-- key, version and correlation id, and for a client id that is null or has 1 to 2^15 - 1 bytes.
pub request_header_decode-encode :
    (h : RequestHeader) (front rest : List ℕ)
    → h.api_key < 2 ^ 16
    → h.api_version < 2 ^ 16
    → h.correlation_id < 2 ^ 32
    → IsClientId h.client_id
    → length (front ++ (request_header_encode h [] ++ rest)) < 2 ^ 63
    → request_header_decode (at front (request_header_encode h [] ++ rest))
      ≡ ok (h, at (front ++ request_header_encode h []) rest)
request_header_decode-encode h front rest k v c i fits =
    rw (request_bytes h) (Reads-request_header h k v c i front rest (rw (request_bytes h) at fits))

Reads-response_header :
    (h : ResponseHeader)
    → h.correlation_id < 2 ^ 32
    → Reads
        (response_header_decode h.api_version h.api_key)
        (fixed_bytes 4 h.correlation_id ++ (tags (is_flexible h.api_key h.api_version) ++ []))
        h
unfolding response_header_decode
Reads-response_header h c =
    Reads-bind read_int32 _ (fixed_bytes 4 h.correlation_id) _ (Reads-int32 h.correlation_id c) (
      Reads-bind (read_tags_if (is_flexible h.api_key h.api_version)) _
        (tags (is_flexible h.api_key h.api_version)) []
        (Reads-tags (is_flexible h.api_key h.api_version)) (Reads-pure h))

-- A response header that is encoded is decoded again by a reader that knows the key and the
-- version, and the reader stands behind it, for every correlation id.
pub response_header_decode-encode :
    (h : ResponseHeader) (front rest : List ℕ)
    → h.correlation_id < 2 ^ 32
    → length (front ++ (response_header_encode h [] ++ rest)) < 2 ^ 63
    → response_header_decode h.api_version h.api_key
        (at front (response_header_encode h [] ++ rest))
      ≡ ok (h, at (front ++ response_header_encode h []) rest)
response_header_decode-encode h front rest c fits =
    rw (response_bytes h) (Reads-response_header h c front rest (rw (response_bytes h) at fits))
