-- ===== src/Protocol/RoundTrip.antt =====
-- What the writer puts in, the reader takes out: protocol/reader.go against protocol/writer.go.
pub mod Stream
pub mod Fixed
pub mod Uvarint
pub mod Values
pub mod Headers
pub mod Codec
pub mod Heartbeat
