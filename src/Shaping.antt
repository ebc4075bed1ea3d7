-- ===== src/Shaping.antt =====
-- cachecore/shaping.go: value shaping round a store. gzip, AES-GCM and the random source are the
-- Go standard library's and no code of the repository: they are parameters.
pub mod Value
pub mod Envelope
pub mod Wrap
pub mod RoundTrip
pub mod Stores
pub mod Limits
